-- ===== src/Channel/Links.antt =====
-- What connecting and disconnecting a channel (src/channel.h) does to a process, for the relations of
-- Subscription/Links.
use libpubsub.Base.{
  Bytes, List, Option, [], drop, eq_ℤ, equal, get_elem?, if_ind, length, none, pos, refl, some, suc,
  zero, ℕ, ◌++◌, ◌==◌, ◌||◌, ◌∷◌, ◌≡◌,
}
use mathlib.Core.List.{Memᴰ}
use libpubsub.World.{World, Result, ok, ◌>>=◌, Env}
use libpubsub.World.Kept.{OnOk, OnOk-bind, OnOk-both, OnOk-map}
use libpubsub.World.Aside.{Aside}
use libpubsub.Mesh.{me, is_local}
use libpubsub.Mesh.Quiet.{Quiet, send-Quiet}
use libpubsub.Subscription
use libpubsub.Subscription.Links.{Links, stay, OnOk-then}
use libpubsub.Channel.{
  for_each, send_publisher, connect_tcp, connect_shm, connect_to, connect, disconnect_loop,
  disconnect, is_empty,
}

pub Quiet-Aside : {w w' : World} → Quiet w w' → Aside w w'
Quiet-Aside q = record {
  same_host = q.same_host;
  same_hosts = q.same_hosts;
  same_next_host = q.same_next_host;
  same_channel = q.same_channel;
  same_channels = q.same_channels;
  same_next_channel = q.same_next_channel;
  same_subscription = q.same_subscription;
  same_next_subscription = q.same_next_subscription;
}

module _ (R : World → World → Type 0) (l : Links R) where
  pub for_each-Links :
      (f : ℕ → World → Result World) (ss : List ℕ) (w : World)
      → ((s : ℕ) (v : World) → OnOk (R v) (f s v))
      → OnOk (R w) (for_each f ss w)
  unfolding for_each
  for_each-Links f [] w h = stay R l w
  for_each-Links f (s ∷ ss) w h =
      OnOk-then R l w (f s w) (for_each f ss) (h s w) (λ w'. for_each-Links f ss w' h)

  send_publisher-Links :
      (o : Option ℕ) (msg : Bytes) (w : World) → OnOk (R w) (send_publisher o msg w)
  unfolding send_publisher
  send_publisher-Links none msg w = tt
  send_publisher-Links (some p) msg w = l.aside (Quiet-Aside (send-Quiet p msg w))

  pub connect_tcp-Links : (e : Env) (c : ℕ) (w : World) → OnOk (R w) (connect_tcp e c w)
  unfolding connect_tcp
  connect_tcp-Links e c w =
      if_ind (OnOk (R w)) (eq_ℤ (w.channel c).offered_port (pos 0)) _ _
        (λ _. send_publisher-Links (w.channel c).publisher _ w)
        (λ _.
          for_each-Links _ (w.channel c).subscriptions w
            (Subscription.Links.connect_tcp-Links R l e))

  -- A loop that shares memory with objects which are all subscriptions of a channel.
  share-Links :
      (e : Env) (c : ℕ) (ss : List ℕ) (w : World)
      → ((s : ℕ) → Memᴰ s ss → Memᴰ s (w.channel c).subscriptions)
      → OnOk (R w) (for_each (Subscription.connect_shm e) ss w)
  unfolding for_each
  share-Links e c [] w h = stay R l w
  share-Links e c (s ∷ ss) w h =
      OnOk-bind (λ w'. R w w' × (w'.channel ≡ w.channel)) (R w) (Subscription.connect_shm e s w)
        (for_each (Subscription.connect_shm e) ss)
        (OnOk-both (R w) (λ w'. w'.channel ≡ w.channel) (Subscription.connect_shm e s w)
          (Subscription.Links.connect_shm-Links R l e s c w (h s (Memᴰ.head refl)))
          (Subscription.Links.connect_shm_channel e s w))
        λ w' (p, k).
          OnOk-map (R w') (R w) (for_each (Subscription.connect_shm e) ss w')
            (share-Links e c ss w' (λ t m. rw k (h t (Memᴰ.tail m)))) (λ v q. l.join p q)

  pub connect_shm-Links : (e : Env) (c : ℕ) (w : World) → OnOk (R w) (connect_shm e c w)
  unfolding connect_shm
  connect_shm-Links e c w =
      if_ind (OnOk (R w)) (equal (w.channel c).offered_shm_path []) _ _
        (λ _. send_publisher-Links (w.channel c).publisher _ w)
        (λ _. share-Links e c (w.channel c).subscriptions w (λ s m. m))

  connect_to-Links : (e : Env) (c : ℕ) (o : Option ℕ) (w : World) → OnOk (R w) (connect_to e c o w)
  unfolding connect_to
  connect_to-Links e c none w = stay R l w
  connect_to-Links e c (some p) w =
      if_ind (OnOk (R w)) (is_empty (w.channel c).subscriptions || p == me w) (ok w) _
        (λ _. stay R l w)
        (λ _.
          if_ind (OnOk (R w)) (is_local p w) (connect_shm e c w) (connect_tcp e c w)
            (λ _. connect_shm-Links e c w) (λ _. connect_tcp-Links e c w))

  pub connect-Links : (e : Env) (c : ℕ) (w : World) → OnOk (R w) (connect e c w)
  unfolding connect
  connect-Links e c w = connect_to-Links e c (w.channel c).publisher w

  disconnect_loop-Links :
      (left i c : ℕ) (slots : List ℕ) (w : World) → OnOk (R w) (disconnect_loop left i c slots w)
  unfolding disconnect_loop
  disconnect_loop-Links zero i c slots w = stay R l w
  disconnect_loop-Links (suc left) i c slots w =
      go (λ slots' w'. disconnect_loop-Links left (suc i) c slots' w') (get_elem? slots i)
    where
      after : World → Result World
      after w' =
          let now = (w'.channel c).subscriptions in
          disconnect_loop left (suc i) c (now ++ drop (length now) slots) w'

      go :
          ((slots' : List ℕ) (w' : World) → OnOk (R w') (disconnect_loop left (suc i) c slots' w'))
          → (o : Option ℕ)
          → OnOk (R w) (elim o [ none ↦ ok w | some s ↦ Subscription.close s w >>= after ])
      go ih none = stay R l w
      go ih (some s) =
          OnOk-then R l w (Subscription.close s w) after (Subscription.Links.close-Links R l s w)
            (λ w'.
              ih ((w'.channel c).subscriptions ++ drop (length (w'.channel c).subscriptions) slots)
                w')

  pub disconnect-Links : (c : ℕ) (w : World) → OnOk (R w) (disconnect c w)
  unfolding disconnect
  disconnect-Links c w =
      disconnect_loop-Links (length (w.channel c).subscriptions) 0 c (w.channel c).subscriptions w
