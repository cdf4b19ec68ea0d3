-- ===== src/Signaling/Mutex.antt =====
-- The mutex of src/signaling.cpp, which its three calls hold from beginning to end. It is another mutex than
-- that of src/mesh.cpp, which the calls that they make take and give back inside.
use libpubsub.Base.{
  Bytes, Lacks, List, arith, codes, eq_ℤ, eq_ℤ_iff, false, pos, refl, some, ℕ, ◌++◌, ◌<◌, ◌^◌, ◌∙◌,
  ◌∷◌, ◌≡◌, ◌≢◌,
}
use libpubsub.Text.Decimal.{show_ℕ}
use libpubsub.World.{
  World, Channel, Subscription, Result, fault, thrown, Env, unresolved, set_channel,
}
use libpubsub.Mesh.{connect_socket}
use libpubsub.Mesh.Mutex.{RecursiveMutex, Outcome, waits, returned, threw, plainly, guarded}
use libpubsub.Mesh.Locked.{guarded_waits}
use libpubsub.Subscription
use libpubsub.Subscription.{deref, attach_socket, dial_publisher}
use libpubsub.Channel
use libpubsub.Channel.{get_channel, for_each}
use libpubsub.Signaling
use libpubsub.Signaling.Transport.{digest-offer_port}

module _ {M : Type 0} (mutex : RecursiveMutex M) (t : ℕ) where
  unfoldable pub digest_message : Env → ℕ → Bytes → M → World → Outcome M Unit
  unfolding guarded Signaling.digest_message
  digest_message e h s = guarded mutex t (λ m w. plainly (Signaling.digest_message e h s w) m)

  unfoldable pub on_host_open : ℕ → M → World → Outcome M Unit
  unfolding guarded Signaling.on_host_open
  on_host_open h = guarded mutex t (λ m w. returned tt m (Signaling.on_host_open h w))

  unfoldable pub on_host_close : Env → ℕ → M → World → Outcome M Unit
  unfolding guarded Signaling.on_host_close
  on_host_close e h = guarded mutex t (λ m w. plainly (Signaling.on_host_close e h w) m)

-- The exception of a name that cannot be resolved.
abbrev pub lost : Result World
lost = fault (thrown (codes "Couldn't resolve host"))

dial_publisher-lost :
    (e : Env) (s : ℕ) (c : Channel) (p : ℕ) (w : World)
    → c.publisher ≡ some p
    → e.dial (w.host p).ip ≡ unresolved
    → dial_publisher e s c c.publisher w ≡ lost
unfolding dial_publisher connect_socket
dial_publisher-lost e s c p w h d = rw (h, dial_publisher, d, connect_socket) refl

connect_tcp-lost :
    (e : Env) (s p : ℕ) (v : Subscription) (w : World)
    → w.subscription s ≡ some v
    → v.connected ≡ false
    → (w.channel v.channel).publisher ≡ some p
    → e.dial (w.host p).ip ≡ unresolved
    → Subscription.connect_tcp e s w ≡ lost
unfolding Subscription.connect_tcp attach_socket
connect_tcp-lost e s p v w a n h d =
    rw (a, deref, n)
      (dial_publisher-lost e w.next_socket (w.channel v.channel) p (attach_socket s v w) h d)

channel-lost :
    (e : Env) (d s q : ℕ) (ss : List ℕ) (w : World)
    → (w.channel d).offered_port ≡ pos q
    → 0 < q
    → (w.channel d).subscriptions ≡ s ∷ ss
    → Subscription.connect_tcp e s w ≡ lost
    → Channel.connect_tcp e d w ≡ lost
unfolding Channel.connect_tcp for_each
channel-lost e d s q ss w o l one r =
    let busy : eq_ℤ (pos q) (pos 0) ≡ false = ground (arith, eq_ℤ_iff (pos q) (pos 0)) in
    rw (o, busy, one, r) refl

digest-lost :
    (e : Env) (h d s p port : ℕ) (ss : List ℕ) (v : Subscription) (name : Bytes) (w : World)
    → Lacks b'|' name
    → get_channel name w ≡ some d
    → port < 2 ^ 31
    → 0 < port
    → (w.channel d).subscriptions ≡ s ∷ ss
    → w.subscription s ≡ some v
    → v.connected ≡ false
    → v.channel ≡ d
    → (w.channel d).publisher ≡ some p
    → e.dial (w.host p).ip ≡ unresolved
    → Signaling.digest_message e h (codes "OFFER_TCP=" ++ (name ++ (b'|' ∷ show_ℕ port))) w ≡ lost
digest-lost e h d s p port ss v name w plain found small real listed held waiting own pub_w away =
    digest-offer_port e h d port name w plain found small
    ∙ channel-lost e d s port ss told (ground arith) real (ground (arith, listed))
        (connect_tcp-lost e s p v told held waiting (ground (arith, own, pub_w)) away)
  where
    told : World
    told = set_channel d (record (w.channel d) { offered_port = pos port }) w

-- Where a thread that can take the mutex reads the offer of a port that is neither 0 nor 2 ^ 31 and above,
-- for a channel of the process whose name holds no '|', whose first subscription belongs to it and is
-- there and not connected, and whose publisher's address cannot be resolved, an exception leaves
-- digest_message with the mutex taken. With the mutex as it then is, and in any state of the process, every other
-- thread that reads a statement, or sees the connection of a host open or close, waits.
pub digest_message-stuck :
    {M : Type 0} (mutex : RecursiveMutex M) (t t' : ℕ) (m m' : M) (e e' : Env)
    (h g k d s p port : ℕ) (ss : List ℕ) (v : Subscription) (name body : Bytes) (w u : World)
    → mutex.lock t m ≡ some m'
    → t ≢ t'
    → Lacks b'|' name
    → get_channel name w ≡ some d
    → port < 2 ^ 31
    → 0 < port
    → (w.channel d).subscriptions ≡ s ∷ ss
    → w.subscription s ≡ some v
    → v.connected ≡ false
    → v.channel ≡ d
    → (w.channel d).publisher ≡ some p
    → e.dial (w.host p).ip ≡ unresolved
    → (digest_message mutex t e h (codes "OFFER_TCP=" ++ (name ++ (b'|' ∷ show_ℕ port))) m w
        ≡ threw (thrown (codes "Couldn't resolve host")) m')
      × (digest_message mutex t' e' g body m' u ≡ waits)
      × (on_host_open mutex t' k m' u ≡ waits)
      × (on_host_close mutex t' e' k m' u ≡ waits)
digest_message-stuck {M = M} mutex t t' m m' e e' h g k d s p port ss v name body w u took other
      plain found small real listed held waiting own pub_w away =
    (
      unfold digest_message in
          rw (took, guarded)
            (rw
              (digest-lost e h d s p port ss v name w plain found small real listed held waiting own
                pub_w away)
              refl),
      unfold digest_message in stuck (λ x y. plainly (Signaling.digest_message e' g body y) x),
      unfold on_host_open in stuck (λ x y. returned tt x (Signaling.on_host_open k y)),
      unfold on_host_close in stuck (λ x y. plainly (Signaling.on_host_close e' k y) x),
    )
  where
    stuck : (f : M → World → Outcome M Unit) → guarded mutex t' f m' u ≡ waits
    stuck f = guarded_waits mutex t t' m m' f u took other
