-- ===== src/Signaling/Transport.antt =====
-- The statements by which a subscriber and a publisher agree on a transport: what ChannelImpl sends
-- (src/channel.h) and what digest_message (src/signaling.cpp) makes of it on the other side.
use libpubsub.Channel.Publisher.{connect_shm-request}
use libpubsub.Base.{
  Bytes, Lacks, [], ap₂, arith, codes, none, pos, refl, some, ℕ, ◌++◌, ◌<◌, ◌^◌, ◌∙◌, ◌∷◌, ◌≡◌, ◌≢◌,
}
use libpubsub.Text.{str_before, str_after}
use libpubsub.Text.Split.{str_after-byte, str_before-byte}
use libpubsub.Text.Decimal.{show_ℕ, atoi, atoi-show_ℕ}
use libpubsub.World.{World, ok, fault, null_pointer, Env, set_channel}
use libpubsub.Mesh.{send}
use libpubsub.Channel.{
  get_channel, connect_tcp, connect_shm, offer_shm, on_offer_tcp, send_publisher, offer_tcp,
  ensure_server,
}
use libpubsub.Signaling.{digest_message, answer_offer_tcp, with_channel, take_offer_tcp}

-- A text that does not begin with '='.
abbrev pub StartsOther : Bytes → Type 0
StartsOther [] = Unit {0}
StartsOther (c ∷ s) = c ≢ b'='

-- A text "CONNECT_SHM…" or "OFFER_SHM…" with no '=' behind the keyword is no statement.
digest-connect_shm :
    (e : Env) (h : ℕ) (name : Bytes) (w : World)
    → StartsOther name
    → digest_message e h (codes "CONNECT_SHM" ++ name) w ≡ ok w
unfolding digest_message
digest-connect_shm e h [] w o = refl
digest-connect_shm e h (c ∷ s) w o = ground arith

digest-offer_shm :
    (e : Env) (h : ℕ) (name : Bytes) (w : World)
    → StartsOther name
    → digest_message e h (codes "OFFER_SHM" ++ name) w ≡ ok w
unfolding digest_message
digest-offer_shm e h [] w o = refl
digest-offer_shm e h (c ∷ s) w o = ground arith

-- Where no shared memory is on offer, connect_shm only sends a request to the publisher; if the
-- channel's name does not begin with '=', whoever receives the request passes it over.
pub connect_shm_unanswered :
    (e f : Env) (a b : World) (c p h : ℕ)
    → (a.channel c).publisher ≡ some p
    → (a.channel c).offered_shm_path ≡ []
    → StartsOther (a.channel c).name
    → let msg = codes "CONNECT_SHM" ++ (a.channel c).name in
      (connect_shm e c a ≡ ok (send p msg a)) × (digest_message f h msg b ≡ ok b)
connect_shm_unanswered e f a b c p h publisher nothing o =
    (connect_shm-request e c p a publisher nothing, digest-connect_shm f h (a.channel c).name b o)

StartsOther-append :
    (name : Bytes) (c : ℕ) (rest : Bytes)
    → StartsOther name
    → c ≢ b'='
    → StartsOther (name ++ (c ∷ rest))
StartsOther-append [] c rest o h = h
StartsOther-append (x ∷ name) c rest o h = o

-- The text of a shared-memory offer.
pub shm_offer : Bytes → ℕ → Bytes
shm_offer name size = codes "OFFER_SHM" ++ (name ++ (b'|' ∷ (name ++ (b'|' ∷ show_ℕ size))))

-- offer_shm sends an offer; if the channel's name does not begin with '=', whoever receives the
-- offer passes it over.
pub offer_shm_unanswered :
    (e : Env) (a b : World) (c p h : ℕ)
    → StartsOther (a.channel c).name
    → let msg = shm_offer (a.channel c).name (a.channel c).size in
      (offer_shm c p a
        ≡ send p msg
            (set_channel c (record (a.channel c) { offered_shm_path = (a.channel c).name }) a))
      × (digest_message e h msg b ≡ ok b)
offer_shm_unanswered e a b c p h o = (
  unfold offer_shm shm_offer in refl,
  unfold shm_offer in
      digest-offer_shm e h _ b (StartsOther-append (a.channel c).name b'|' _ o (omega arith)),
)

digest-offer_tcp :
    (e : Env) (h : ℕ) (body : Bytes) (w : World)
    → digest_message e h (codes "OFFER_TCP=" ++ body) w ≡ answer_offer_tcp e h body w
unfolding digest_message
digest-offer_tcp e h body w = refl

answer_offer_tcp-split :
    (e : Env) (h : ℕ) (offer : Bytes) (w : World)
    → answer_offer_tcp e h offer w
      ≡ take_offer_tcp e (str_before offer (codes "|")) (str_after offer (codes "|")) w
unfolding answer_offer_tcp
answer_offer_tcp-split e h offer w = refl

take_offer_tcp-known :
    (e : Env) (c : ℕ) (name opts : Bytes) (w : World)
    → get_channel name w ≡ some c
    → take_offer_tcp e name opts w ≡ on_offer_tcp e c opts w
take_offer_tcp-known e c name opts w k = unfold take_offer_tcp in rw (k, with_channel)

-- An offer for a known channel reaches that channel's handler.
digest-offer :
    (e : Env) (h c : ℕ) (name opts : Bytes) (w : World)
    → Lacks b'|' name
    → get_channel name w ≡ some c
    → digest_message e h (codes "OFFER_TCP=" ++ (name ++ (b'|' ∷ opts))) w ≡ on_offer_tcp e c opts w
digest-offer e h c name opts w l k =
    digest-offer_tcp e h (name ++ (b'|' ∷ opts)) w
    ∙ answer_offer_tcp-split e h (name ++ (b'|' ∷ opts)) w
    ∙ ap₂ (λ n o. take_offer_tcp e n o w) (str_before-byte b'|' name opts l)
        (str_after-byte b'|' name opts l)
    ∙ take_offer_tcp-known e c name opts w k

-- The offer that offer_tcp writes for the port of its server is read back as that port, and the
-- subscriber dials it.
pub digest-offer_port :
    (e : Env) (h c port : ℕ) (name : Bytes) (w : World)
    → Lacks b'|' name
    → get_channel name w ≡ some c
    → port < 2 ^ 31
    → digest_message e h (codes "OFFER_TCP=" ++ (name ++ (b'|' ∷ show_ℕ port))) w
      ≡ connect_tcp e c (set_channel c (record (w.channel c) { offered_port = pos port }) w)
digest-offer_port e h c port name w l k small = digest-offer e h c name (show_ℕ port) w l k ∙ reads
  where
    reads :
        on_offer_tcp e c (show_ℕ port) w
        ≡ connect_tcp e c (set_channel c (record (w.channel c) { offered_port = pos port }) w)
    reads = unfold on_offer_tcp in rw (atoi-show_ℕ port small)

offer_tcp-served :
    (e : Env) (c h v : ℕ) (w : World)
    → (w.channel c).server ≡ some v
    → offer_tcp e c h w
      ≡ ok (
          send h
            (codes "OFFER_TCP=" ++ ((w.channel c).name ++ (b'|' ∷ show_ℕ (w.server v).port)))
            w)
unfolding offer_tcp ensure_server
offer_tcp-served e c h v w k = rw k

-- What a publisher `a` that has a server for the channel, on a port below 2 ^ 31, sends as an
-- offer, a process `b` that has a channel of the name, which holds no '|', reads back as the port
-- of that server: it stores the port and connects its subscriptions to it.
pub offer_tcp-answered :
    (e f : Env) (a b : World) (c d g h v : ℕ)
    → (a.channel c).server ≡ some v
    → (a.server v).port < 2 ^ 31
    → Lacks b'|' (a.channel c).name
    → get_channel (a.channel c).name b ≡ some d
    → let msg = codes "OFFER_TCP=" ++ ((a.channel c).name ++ (b'|' ∷ show_ℕ (a.server v).port)) in
      (offer_tcp e c g a ≡ ok (send g msg a))
      × (digest_message f h msg b
          ≡ connect_tcp f d
              (set_channel d (record (b.channel d) { offered_port = pos (a.server v).port }) b))
offer_tcp-answered e f a b c d g h v served small l k = (
  offer_tcp-served e c g v a served,
  digest-offer_port f h d (a.server v).port (a.channel c).name b l k small,
)

connect_tcp-null :
    (e : Env) (c : ℕ) (w : World)
    → (w.channel c).publisher ≡ none
    → (w.channel c).offered_port ≡ pos 0
    → connect_tcp e c w ≡ fault null_pointer
unfolding connect_tcp send_publisher
connect_tcp-null e c w h o = rw (o, h)

-- An "OFFER_TCP=" text whose port reads as 0, for a channel whose name holds no '|' and that has
-- no publisher, makes the process use a null pointer.
pub digest-offer_stray :
    (e : Env) (h c : ℕ) (name opts : Bytes) (w : World)
    → Lacks b'|' name
    → get_channel name w ≡ some c
    → (w.channel c).publisher ≡ none
    → atoi opts ≡ pos 0
    → digest_message e h (codes "OFFER_TCP=" ++ (name ++ (b'|' ∷ opts))) w ≡ fault null_pointer
digest-offer_stray e h c name opts w l k none_yet reads0 =
    digest-offer e h c name opts w l k ∙ crashes
  where
    crashes : on_offer_tcp e c opts w ≡ fault null_pointer
    crashes =
        unfold on_offer_tcp in
        connect_tcp-null e c (set_channel c (record (w.channel c) { offered_port = atoi opts }) w)
          (ground (arith, none_yet)) (ground (arith, reads0))
