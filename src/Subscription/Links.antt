-- ===== src/Subscription/Links.antt =====
-- What opening and closing a connection (src/channel.cpp) does to a process, said once for every
-- relation between its states that joins, that sockets do not matter to, and that outlives a change to a
-- subscription and its release.
use libpubsub.Base.{if_ind, inl, inr, refl, some, ℕ, ◌≡◌, ◌⊎◌}
use mathlib.Core.List.{Memᴰ}
use libpubsub.World.{World, Subscription, tcp, Result, ok, ◌>>=◌, Env, set_subscription}
use libpubsub.World.Kept.{OnOk, OnOk-map, OnOk-bind}
use libpubsub.World.Aside.{Aside, Aside-of, Aside-refl, AsideOk}
use libpubsub.Mesh.{fresh_socket}
use libpubsub.Subscription.{
  destroy, drop_listeners, on_open, on_close, close_transport, close, attach_socket, connect_tcp,
  fresh_segment, connect_shm,
}
use libpubsub.Subscription.Quiet.{
  OnOk-deref, drop_listeners-Aside, close_transport-Aside, dial_publisher-Aside,
}

-- The object has a socket to write to.
abbrev pub IsStream : Subscription → Type 0
IsStream v = (v.transport ≡ tcp) × ((t : ℕ) × (v.socket ≡ some t))

-- A change that keeps the socket, or is to an object that a channel lists as its subscription.
abbrev pub Stores : ℕ → Subscription → Subscription → World → Type 0
Stores s v v' w = (IsStream v → IsStream v') ⊎ ((d : ℕ) × Memᴰ s (w.channel d).subscriptions)

pub record Links (R : World → World → Type 0) : Type 0 where
  pub join : {u v w : World} → R u v → R v w → R u w
  pub aside : {w w' : World} → Aside w w' → R w w'
  pub gone :
      (s : ℕ) (v : Subscription) (w : World) → w.subscription s ≡ some v → R w (destroy s v w)
  pub stored :
      (s : ℕ) (v v' : Subscription) (w : World)
      → w.subscription s ≡ some v
      → v'.channel ≡ v.channel
      → Stores s v v' w
      → R w (set_subscription s (some v') w)

module _ (R : World → World → Type 0) (l : Links R) where
  pub OnOk-aside : (w : World) (r : Result World) → AsideOk w r → OnOk (R w) r
  OnOk-aside w r h = OnOk-map (Aside w) (R w) r h (λ w' a. l.aside a)

  pub stay : (w : World) → R w w
  stay w = l.aside (Aside-refl w)

  -- A call behind others.
  pub OnOk-then :
      (w : World) (m : Result World) (f : World → Result World)
      → OnOk (R w) m
      → ((w' : World) → OnOk (R w') (f w'))
      → OnOk (R w) (m >>= f)
  OnOk-then w m f h k =
      OnOk-bind (R w) (R w) m f h (λ w' p. OnOk-map (R w') (R w) (f w') (k w') (λ v q. l.join p q))

  pub on_open-Links : (s : ℕ) (w : World) → OnOk (R w) (on_open s w)
  unfolding on_open
  on_open-Links s w = OnOk-deref (R w) s w _ (λ v e. l.stored s v _ w e refl (inl (λ k. k)))

  pub on_close-Links : (s : ℕ) (w : World) → OnOk (R w) (on_close s w)
  unfolding on_close
  on_close-Links s w = OnOk-deref (R w) s w _ λ v e.
      OnOk-bind (Aside w) (R w) (drop_listeners v.socket w) (λ w'. ok (destroy s v w'))
        (drop_listeners-Aside v.socket w)
        (λ w' a. l.join (l.aside a) (l.gone s v w' (rw a.same_subscription e)))

  pub close-Links : (s : ℕ) (w : World) → OnOk (R w) (close s w)
  unfolding close
  close-Links s w = OnOk-deref (R w) s w _ λ v e.
      OnOk-then w (close_transport v w) (on_close s)
        (OnOk-aside w (close_transport v w) (close_transport-Aside v w)) (on_close-Links s)

  attach_socket-Links :
      (s : ℕ) (v : Subscription) (w : World) → w.subscription s ≡ some v → R w (attach_socket s v w)
  unfolding attach_socket fresh_socket
  attach_socket-Links s v w e =
      l.join (l.aside (Aside-of refl refl refl refl refl refl refl refl)) (
        l.join (l.stored s v _ (fresh_socket w) e refl (inl (λ _. (refl, (w.next_socket, refl)))))
          (l.aside (Aside-of refl refl refl refl refl refl refl refl)))

  pub connect_tcp-Links : (e : Env) (s : ℕ) (w : World) → OnOk (R w) (connect_tcp e s w)
  unfolding connect_tcp
  connect_tcp-Links e s w = OnOk-deref (R w) s w _ λ v live.
      if_ind (OnOk (R w)) v.connected _ _ (λ _. stay w)
        (λ _. OnOk-then w (ok (attach_socket s v w)) _ (attach_socket-Links s v w live) (λ w'.
          OnOk-aside w' _ (
            dial_publisher-Aside e w.next_socket (w.channel v.channel)
              (w.channel v.channel).publisher w')))

  pub connect_shm-Links :
      (e : Env) (s d : ℕ) (w : World)
      → Memᴰ s (w.channel d).subscriptions
      → OnOk (R w) (connect_shm e s w)
  unfolding connect_shm fresh_segment
  connect_shm-Links e s d w m = OnOk-deref (R w) s w _ λ v live.
      if_ind (OnOk (R w)) v.connected _ _ (λ _. stay w)
        (λ _.
          if_ind (OnOk (R w)) v.is_async _ _ (λ _. l.stored s v _ w live refl (inr (d, m)))
            (λ _.
              l.join (l.aside (Aside-of refl refl refl refl refl refl refl refl))
                (l.stored s v _ (fresh_segment e _ _ w) live refl (inr (d, m)))))

-- connect_shm leaves the channels.
pub connect_shm_channel :
    (e : Env) (s : ℕ) (w : World) → OnOk (λ w'. w'.channel ≡ w.channel) (connect_shm e s w)
unfolding connect_shm fresh_segment
connect_shm_channel e s w =
    OnOk-deref (λ w'. w'.channel ≡ w.channel) s w _
      λ v live.
        if_ind (OnOk (λ w'. w'.channel ≡ w.channel)) v.connected _ _ (λ _. refl)
          (λ _. if_ind (OnOk (λ w'. w'.channel ≡ w.channel)) v.is_async _ _ (λ _. refl) (λ _. refl))
