-- ===== src/Subscription/Quiet.antt =====
-- Using the socket or the segment of a connection (src/channel.cpp) leaves every host, channel and
-- subscription of the process as it was.
use libpubsub.Base.{
  Bytes, Option, Option-cases, [], codes, if_ind, inl, inr, length, ltb, none, not, refl, some, ℕ,
  ℤ, ◌≡◌,
}
use libpubsub.Socket.{connected}
use libpubsub.World.{
  World, Subscription, Channel, Result, ok, fault, ◌>>=◌, Env, tcp, shm, Transport, Dial, dialled,
  unresolved, no_descriptor, thrown, set_socket_at,
}
use libpubsub.World.Kept.{OnOk}
use libpubsub.World.Aside.{Aside, Aside-of, Aside-refl, AsideOk}
use libpubsub.Mesh.{connect_socket}
use libpubsub.Subscription.{
  deref, drop_listeners, shut, close_transport, dial_publisher, copy_to_segment, write_socket,
  write, notify, write_dma,
}

-- A step behind `deref`, which only returns an object that is there.
pub OnOk-deref :
    (P : World → Type 0) (s : ℕ) (w : World) (f : Subscription → Result World)
    → ((v : Subscription) → w.subscription s ≡ some v → OnOk P (f v))
    → OnOk P (deref s w >>= f)
unfolding deref
OnOk-deref P s w f h = elim (Option-cases (w.subscription s)) [
  | inl e ↦ rw (e, deref, OnOk) tt
  | inr (v, e) ↦ rw (e, deref) (h v e)
]

write_socket-Aside : (o : Option ℕ) (msg : Bytes) (w : World) → AsideOk w (write_socket o msg w)
unfolding write_socket
write_socket-Aside none msg w = tt
write_socket-Aside (some s) msg w = Aside-of refl refl refl refl refl refl refl refl

copy_to_segment-Aside :
    (o : Option ℕ) (msg : Bytes) (w : World) → AsideOk w (copy_to_segment o msg w)
unfolding copy_to_segment
copy_to_segment-Aside none msg w = tt
copy_to_segment-Aside (some g) msg w =
    if_ind (AsideOk w) (ltb (length (w.segment g).contents) (length msg)) _ _ (λ _. tt)
      (λ _. Aside-of refl refl refl refl refl refl refl refl)

notify-Aside : (o : Option ℕ) (w : World) → AsideOk w (notify o w)
unfolding notify
notify-Aside none w = tt
notify-Aside (some g) w = Aside-refl w

pub connect_socket-Aside :
    (e : Env) (s : ℕ) (ip : Bytes) (port : ℤ) (w : World) → AsideOk w (connect_socket e s ip port w)
unfolding connect_socket
connect_socket-Aside e s ip port w = go (e.dial ip)
  where
    go :
        (d : Dial)
        → AsideOk w (elim d [
          | dialled ↦ ok (set_socket_at s (connected ip port (w.socket s)) w)
          | unresolved ↦ fault (thrown (codes "Couldn't resolve host"))
          | no_descriptor ↦ fault (thrown (codes "ERROR opening socket"))
        ])
    go dialled = Aside-of refl refl refl refl refl refl refl refl
    go unresolved = tt
    go no_descriptor = tt

pub dial_publisher-Aside :
    (e : Env) (s : ℕ) (c : Channel) (o : Option ℕ) (w : World)
    → AsideOk w (dial_publisher e s c o w)
unfolding dial_publisher
dial_publisher-Aside e s c none w = tt
dial_publisher-Aside e s c (some p) w = connect_socket-Aside e s (w.host p).ip c.offered_port w

pub drop_listeners-Aside : (o : Option ℕ) (w : World) → AsideOk w (drop_listeners o w)
unfolding drop_listeners
drop_listeners-Aside none w = tt
drop_listeners-Aside (some s) w = Aside-of refl refl refl refl refl refl refl refl

shut-Aside : (o : Option ℕ) (w : World) → AsideOk w (shut o w)
unfolding shut
shut-Aside none w = tt
shut-Aside (some s) w = Aside-of refl refl refl refl refl refl refl refl

pub close_transport-Aside : (v : Subscription) (w : World) → AsideOk w (close_transport v w)
unfolding close_transport
close_transport-Aside v w = go v.transport
  where
    go : (t : Transport) → AsideOk w (elim t [ tcp ↦ shut v.socket w | shm ↦ ok w ])
    go tcp = shut-Aside v.socket w
    go shm = Aside-refl w

pub write-Aside : (s : ℕ) (msg : Bytes) (w : World) → AsideOk w (write s msg w)
unfolding write
write-Aside s msg w = OnOk-deref (Aside w) s w _ λ v _.
    if_ind (AsideOk w) (not v.connected) (ok w) _ (λ _. Aside-refl w)
      (λ _. by_transport v v.transport)
  where
    by_transport :
        (v : Subscription) (t : Transport)
        → AsideOk w
            (elim t [ tcp ↦ write_socket v.socket msg w | shm ↦ copy_to_segment v.memory msg w ])
    by_transport v tcp = write_socket-Aside v.socket msg w
    by_transport v shm = copy_to_segment-Aside v.memory msg w

pub write_dma-Aside : (s : ℕ) (w : World) → AsideOk w (write_dma s w)
unfolding write_dma
write_dma-Aside s w = OnOk-deref (Aside w) s w _ λ v _.
    if_ind (AsideOk w) (not v.connected) (ok w) _ (λ _. Aside-refl w)
      (λ _. by_transport v v.transport)
  where
    by_transport :
        (v : Subscription) (t : Transport)
        → AsideOk w (elim t [ tcp ↦ write_socket v.socket [] w | shm ↦ notify v.memory w ])
    by_transport v tcp = write_socket-Aside v.socket [] w
    by_transport v shm = notify-Aside v.memory w
