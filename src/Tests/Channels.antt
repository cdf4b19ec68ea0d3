-- ===== src/Tests/Channels.antt =====
-- Tests of the channels: their registry, publishers, writes, statements and disconnections.
use libpubsub.Base.{
  All, List, [], arith, codes, false, none, pos, refl, some, true, ℕ, ◌++◌, ◌∷◌, ◌≡◌,
}
use libpubsub.Text.Decimal.{atoi}
use libpubsub.World.{World, ok, fault, null_pointer, deleted, points_to}
use libpubsub.Mesh.{me, me_of}
use libpubsub.Channel.{get_channel, channel_to_string, write, disconnect}
use libpubsub.Channel.Registry.{IsRegistry}
use libpubsub.Channel.Delivery.{copies, write-sent, IsTcp}
use libpubsub.Channel.Disconnect.{disconnect_three}
use libpubsub.Channel.Closing.{IsOpen}
use libpubsub.Signaling.{digest_message, on_host_close}
use libpubsub.Signaling.Announce.{
  Publishes, IsFree, IsPending, digest-tostring_first, digest-unpublished_pending,
}
use libpubsub.Signaling.Transport.{digest-offer_stray}
use libpubsub.Signaling.HostClose.{after_close, on_host_close-cleared}
use libpubsub.Tests.{
  easy, news, publishing_news, knowing_news, following_news, open_on, subscribed, serving, waiting,
}

knowing-IsRegistry : IsRegistry knowing_news
unfolding get_channel
knowing-IsRegistry = ((omega arith, tt), (refl, tt))

pub knowing-IsFree : (d : ℕ) → get_channel news knowing_news ≡ some d → IsFree d knowing_news
knowing-IsFree d h = (refl, refl)

publishes_news : points_to (publishing_news.channel 0).publisher (me publishing_news) ≡ true
unfolding me_of
publishes_news = refl

digest-tostring_example :
    (b' : World) × (digest_message easy 1
        (codes "PUBLISH=" ++ channel_to_string 0 publishing_news)
        knowing_news
      ≡ ok b')
    × Publishes news (some 1) b'
digest-tostring_example =
    digest-tostring_first easy publishing_news knowing_news 0 1 (ground arith) publishes_news
      (omega arith, tt) knowing-IsFree

knows_news : get_channel news knowing_news ≡ some 0
unfolding get_channel
knows_news = refl

awaits_news : get_channel news waiting ≡ some 0
unfolding get_channel
awaits_news = refl

waiting-IsPending : IsPending 0 waiting (record (open_on 0) { connected = false; socket = none })
waiting-IsPending = record { alive = refl; over_tcp = refl; no_socket = refl }

unpublished_pending_example :
    digest_message easy 1 (codes "UNPUBLISH=" ++ channel_to_string 0 knowing_news) waiting
    ≡ fault null_pointer
unpublished_pending_example =
    digest-unpublished_pending easy knowing_news waiting 0 0 1 1 0 []
      (record (open_on 0) { connected = false; socket = none }) (ground arith) awaits_news refl refl
      waiting-IsPending

serving-IsTcp : All (IsTcp serving) (0 ∷ 1 ∷ [])
serving-IsTcp = ((open_on 0, 0, (refl, refl, refl)), ((open_on 1, 1, (refl, refl, refl)), tt))

write-sent_example :
    (w' : World) × (write 0 (codes "hello") serving ≡ ok w')
    × ((k : ℕ)
        → (w'.socket k).sent
          ≡ (serving.socket k).sent ++ copies serving (codes "hello") k (0 ∷ 1 ∷ []))
    × (w'.subscription ≡ serving.subscription)
write-sent_example = write-sent 0 (codes "hello") serving serving-IsTcp

subscribed-IsOpen : (ss : List ℕ) (s : ℕ) → IsOpen (subscribed ss) 0 s s (open_on s)
subscribed-IsOpen ss s = record {
  alive = refl;
  of_channel = refl;
  over_tcp = refl;
  has_socket = refl;
}

disconnect_three_example : disconnect 0 (subscribed (0 ∷ 1 ∷ 2 ∷ [])) ≡ fault deleted
disconnect_three_example =
    disconnect_three 0 0 1 2 0 1 2 (open_on 0) (open_on 1) (open_on 2) (subscribed (0 ∷ 1 ∷ 2 ∷ []))
      refl (omega arith) (omega arith) (omega arith) (subscribed-IsOpen (0 ∷ 1 ∷ 2 ∷ []) 0)
      (subscribed-IsOpen (0 ∷ 1 ∷ 2 ∷ []) 1) (subscribed-IsOpen (0 ∷ 1 ∷ 2 ∷ []) 2)

offer_stray_example :
    digest_message easy 1 (codes "OFFER_TCP=" ++ (news ++ (b'|' ∷ codes "x"))) knowing_news
    ≡ fault null_pointer
offer_stray_example =
    digest-offer_stray easy 1 0 news (codes "x") knowing_news (ground arith) knows_news refl reads
  where
    reads : atoi (codes "x") ≡ pos 0
    reads = unfold atoi in refl

following_idle : (c : ℕ) → (following_news.channel c).subscriptions ≡ []
following_idle c = refl

on_host_close_example :
    (w' : World) × (on_host_close easy 1 following_news ≡ ok w')
    × ((c : ℕ) → (w'.channel c).publisher ≡ after_close 1 (0 ∷ []) c (some 1))
on_host_close_example = on_host_close-cleared easy 1 following_news following_idle
