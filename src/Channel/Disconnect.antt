-- ===== src/Channel/Disconnect.antt =====
-- ChannelImpl::disconnect (src/channel.h): its loop runs over a vector from which every round erases.
use libpubsub.Base.{
  List, [], ap, arith, drop, get_elem?, length, none, refl, some, suc, ℕ, ◌++◌, ◌∙◌, ◌∷◌, ◌≡◌, ◌≢◌,
}
use libpubsub.World.{World, Subscription, ok, fault, null_pointer, deleted, Env, tcp, vector_remove}
use libpubsub.Subscription.{shut, close}
use libpubsub.Channel.{disconnect_loop, disconnect, leave_publisher, set_publisher}
use libpubsub.Channel.Closing.{
  IsOpen, deref-some, deref-none, close_transport-tcp, close-Closes, IsOpen-Closes, deleted-Closes,
  stays_deleted,
}

disconnect_loop_step :
    (left i c s : ℕ) (slots : List ℕ) (w w' : World)
    → get_elem? slots i ≡ some s
    → close s w ≡ ok w'
    → disconnect_loop (suc left) i c slots w
      ≡ disconnect_loop left
          (suc i)
          c
          ((w'.channel c).subscriptions ++ drop (length (w'.channel c).subscriptions) slots)
          w'
unfolding disconnect_loop
disconnect_loop_step left i c s slots w w' g r = rw (g, disconnect_loop, r)

close-deleted : (s : ℕ) (w : World) → w.subscription s ≡ none → close s w ≡ fault deleted
unfolding close
close-deleted s w e = rw (deref-none s w e)

disconnect_loop_fault :
    (left i c s : ℕ) (slots : List ℕ) (w : World)
    → get_elem? slots i ≡ some s
    → w.subscription s ≡ none
    → disconnect_loop (suc left) i c slots w ≡ fault deleted
unfolding disconnect_loop
disconnect_loop_fault left i c s slots w g e = rw (g, disconnect_loop, close-deleted s w e)

-- What is left of the loop over two slots, and over three, once the first close has shifted the rest.
remove_head : (s t : ℕ) → t ≢ s → vector_remove s (s ∷ t ∷ []) ≡ t ∷ []
unfolding vector_remove
remove_head s t d = ground (arith, d)

remove_head_two : (s t u : ℕ) → t ≢ s → u ≢ s → vector_remove s (s ∷ t ∷ u ∷ []) ≡ t ∷ u ∷ []
unfolding vector_remove
remove_head_two s t u d f = ground (arith, d, f)

remove_second : (t u : ℕ) → t ≢ u → vector_remove u (t ∷ u ∷ []) ≡ t ∷ []
unfolding vector_remove
remove_second t u d = ground (arith, d)

remove_one : (s : ℕ) → vector_remove s (s ∷ []) ≡ []
unfolding vector_remove
remove_one s = ground arith

disconnect_loop_next :
    (left i c s : ℕ) (slots now : List ℕ) (w w' : World)
    → get_elem? slots i ≡ some s
    → close s w ≡ ok w'
    → (w'.channel c).subscriptions ≡ now
    → disconnect_loop (suc left) i c slots w
      ≡ disconnect_loop left (suc i) c (now ++ drop (length now) slots) w'
disconnect_loop_next left i c s slots now w w' g r e =
    disconnect_loop_step left i c s slots w w' g r
    ∙ ap (λ n. disconnect_loop left (suc i) c (n ++ drop (length n) slots) w') e

disconnect_loop_end : (i c : ℕ) (slots : List ℕ) (w : World) → disconnect_loop 0 i c slots w ≡ ok w
unfolding disconnect_loop
disconnect_loop_end i c slots w = refl

-- A channel with exactly two subscriptions, distinct, over TCP and each with a socket,
-- disconnects: both are deleted and the vector is empty. The second close finds its subscription
-- behind the end that the vector has by then.
pub disconnect_two :
    (c s t k j : ℕ) (u v : Subscription) (w : World)
    → (w.channel c).subscriptions ≡ s ∷ t ∷ []
    → t ≢ s
    → IsOpen w c s k u
    → IsOpen w c t j v
    → (w' : World) × (disconnect c w ≡ ok w')
      × ((w'.channel c).subscriptions ≡ [])
      × (w'.subscription s ≡ none)
      × (w'.subscription t ≡ none)
unfolding disconnect
disconnect_two c s t k j u v w l d o p =
    let (w1, r1, g1) = close-Closes c s k u w o in
    let left1 = g1.off_vector ∙ rw l (remove_head s t d) in
    let (w2, r2, g2) = close-Closes c t j v w1 (IsOpen-Closes c s t j v w w1 d g1 p) in
    let left2 = g2.off_vector ∙ rw left1 (remove_one t) in
    let step1 = disconnect_loop_next 1 0 c s (s ∷ t ∷ []) (t ∷ []) w w1 refl r1 left1 in
    let step2 = disconnect_loop_next 0 1 c t (t ∷ t ∷ []) [] w1 w2 refl r2 left2 in
    (
      w2,
      rw l (step1 ∙ step2 ∙ disconnect_loop_end 2 c (t ∷ t ∷ []) w2),
      left2,
      stays_deleted c t s w1 w2 g2 (deleted-Closes c s w w1 g1),
      deleted-Closes c t w1 w2 g2,
    )

-- With exactly three such subscriptions, all distinct, `disconnect` uses a deleted one: the loop
-- passes over the second and comes to the third again, which is deleted by then.
pub disconnect_three :
    (c s t u k j i : ℕ) (x y z : Subscription) (w : World)
    → (w.channel c).subscriptions ≡ s ∷ t ∷ u ∷ []
    → t ≢ s
    → u ≢ s
    → t ≢ u
    → IsOpen w c s k x
    → IsOpen w c t j y
    → IsOpen w c u i z
    → disconnect c w ≡ fault deleted
unfolding disconnect
disconnect_three c s t u k j i x y z w l d f g o p q =
    let (w1, r1, g1) = close-Closes c s k x w o in
    let left1 = g1.off_vector ∙ rw l (remove_head_two s t u d f) in
    let (w2, r2, g2) = close-Closes c u i z w1 (IsOpen-Closes c s u i z w w1 f g1 q) in
    let left2 = g2.off_vector ∙ rw left1 (remove_second t u g) in
    let step1 = disconnect_loop_next 2 0 c s (s ∷ t ∷ u ∷ []) (t ∷ u ∷ []) w w1 refl r1 left1 in
    let step2 = disconnect_loop_next 1 1 c u (t ∷ u ∷ u ∷ []) (t ∷ []) w1 w2 refl r2 left2 in
    let stop =
      disconnect_loop_fault 0 2 c u (t ∷ u ∷ u ∷ []) w2 refl (deleted-Closes c u w1 w2 g2) in
    rw l (step1 ∙ step2 ∙ stop)

close_null :
    (s : ℕ) (v : Subscription) (w : World)
    → w.subscription s ≡ some v
    → v.transport ≡ tcp
    → v.socket ≡ none
    → close s w ≡ fault null_pointer
unfolding close shut
close_null s v w a t n = rw (deref-some s v w a, close_transport-tcp v w t, n)

disconnect_null :
    (c s : ℕ) (rest : List ℕ) (v : Subscription) (w : World)
    → (w.channel c).subscriptions ≡ s ∷ rest
    → w.subscription s ≡ some v
    → v.transport ≡ tcp
    → v.socket ≡ none
    → disconnect c w ≡ fault null_pointer
unfolding disconnect disconnect_loop
disconnect_null c s rest v w l a t n = rw (l, close_null s v w a t n)

-- Taking the publisher from a channel whose first subscription has no socket uses a null pointer.
pub set_publisher_null :
    (e : Env) (c p s : ℕ) (rest : List ℕ) (v : Subscription) (w : World)
    → (w.channel c).publisher ≡ some p
    → (w.channel c).subscriptions ≡ s ∷ rest
    → w.subscription s ≡ some v
    → v.transport ≡ tcp
    → v.socket ≡ none
    → set_publisher e c none w ≡ fault null_pointer
unfolding set_publisher leave_publisher
set_publisher_null e c p s rest v w own l a t n = rw (own, disconnect_null c s rest v w l a t n)
