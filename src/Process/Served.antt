-- ===== src/Process/Served.antt =====
-- What a publisher writes reaches a subscriptor that connected to its server: the on_open callback of
-- src/channel.h, the constructor of src/channel.cpp and ChannelImpl::write.
use libpubsub.Base.{
  All, Bytes, List, [], append-nil, arith, false, if◌then◌else◌, none, refl, some, true, ℕ, ℤ, ◌++◌,
  ◌<◌, ◌==◌, ◌∙◌, ◌∷◌, ◌≡◌,
}
use libpubsub.World.{World, Subscription, ok, tcp}
use libpubsub.Subscription
use libpubsub.Channel.{write}
use libpubsub.Channel.Delivery.{outlet, copies, IsTcp, write-sent}
use libpubsub.Process.{accept_subscriptor}

-- A subscriptor over TCP whose object and socket are older than those to come.
abbrev pub IsOlder : World → ℕ → Type 0
IsOlder w s =
    (s < w.next_subscription)
    × ((v : Subscription) × (k : ℕ) × ((w.subscription s ≡ some v)
          × (v.transport ≡ tcp)
          × (v.socket ≡ some k)
          × (k < w.next_socket)))

-- The object that a connection makes.
abbrev newcomer : ℕ → ℕ → World → Subscription
newcomer c h w = record {
  channel = c;
  host = some h;
  is_async = false;
  connected = true;
  transport = tcp;
  socket = some w.next_socket;
  memory = none;
}

-- The process behind the connection.
record Joined (c h : ℕ) (w w' : World) : Type 0 where
  at_end : (w'.channel c).subscriptors ≡ (w.channel c).subscriptors ++ (w.next_subscription ∷ [])
  its_object : w'.subscription w.next_subscription ≡ some (newcomer c h w)
  others : (s : ℕ) → s < w.next_subscription → w'.subscription s ≡ w.subscription s
  sent_nothing : (w'.socket w.next_socket).sent ≡ []
  sent_before : (j : ℕ) → j < w.next_socket → (w'.socket j).sent ≡ (w.socket j).sent

accept_subscriptor-Joined :
    (k : ℕ) (ip : Bytes) (port : ℤ) (w : World)
    → Joined (w.server k).channel (w.server k).host w (accept_subscriptor k ip port w)
unfolding accept_subscriptor Subscription.new_tcp_subscriptor
accept_subscriptor-Joined k ip port w = record {
  at_end = ground arith;
  its_object = ground arith;
  others = λ s l. ground (arith, l);
  sent_nothing = ground arith;
  sent_before = λ j l. ground (arith, l);
}

module _ (c h : ℕ) (w w' : World) (joined : Joined c h w w') (msg : Bytes) where
  All-IsTcp : (ss : List ℕ) → All (IsOlder w) ss → All (IsTcp w') (ss ++ (w.next_subscription ∷ []))
  All-IsTcp [] a = ((newcomer c h w, w.next_socket, (joined.its_object, refl, refl)), tt)
  All-IsTcp (s ∷ ss) ((l, (v, k, (e, t, o, m))), a) =
      ((v, k, (joined.others s l ∙ e, t, o)), All-IsTcp ss a)

  -- The newcomer's copy comes behind those of the others.
  copies-joined :
      (j : ℕ) (ss : List ℕ)
      → All (IsOlder w) ss
      → copies w' msg j (ss ++ (w.next_subscription ∷ []))
        ≡ copies w msg j ss ++ (if w.next_socket == j then msg ∷ [] else [])
  unfolding copies outlet
  copies-joined j [] a = rw joined.its_object refl
  copies-joined j (s ∷ ss) ((l, o), a) =
      rw (joined.others s l) (ground (arith, copies-joined j ss a))

  -- No older subscriptor uses the new socket.
  copies-none : (ss : List ℕ) → All (IsOlder w) ss → copies w msg w.next_socket ss ≡ []
  unfolding copies outlet
  copies-none [] a = refl
  copies-none (s ∷ ss) ((l, (v, k, (e, t, o, m))), a) =
      rw (e, o) (ground (arith, copies-none ss a, m))

-- Behind a connection to the server of a channel whose subscriptors are over TCP, with objects and sockets
-- older than those to come, a write on the channel returns. The new socket has then sent the message
-- and nothing else, and each older socket has sent besides the message once for every connected
-- subscriptor that uses it.
pub accept_subscriptor-served :
    (k : ℕ) (ip : Bytes) (port : ℤ) (msg : Bytes) (w : World)
    → All (IsOlder w) (w.channel (w.server k).channel).subscriptors
    → (w' : World) × (write (w.server k).channel msg (accept_subscriptor k ip port w) ≡ ok w')
      × ((w'.socket w.next_socket).sent ≡ msg ∷ [])
      × ((j : ℕ)
          → j < w.next_socket
          → (w'.socket j).sent
            ≡ (w.socket j).sent ++ copies w msg j (w.channel (w.server k).channel).subscriptors)
accept_subscriptor-served k ip port msg w a =
    let (w2, r, sends, _) =
      write-sent c msg w1 (rw joined.at_end (All-IsTcp c h w w1 joined msg ss a)) in
    (
      w2,
      r,
      sends w.next_socket
          ∙ rw
              (
                joined.sent_nothing,
                joined.at_end,
                copies-joined c h w w1 joined msg w.next_socket ss a,
                copies-none c h w w1 joined msg ss a,
              )
              (ground arith),
      λ j l.
          let apart : (w.next_socket == j) ≡ false = ground arith in
          sends j
          ∙ rw
              (
                joined.sent_before j l,
                joined.at_end,
                copies-joined c h w w1 joined msg j ss a,
                apart,
                append-nil,
              )
              refl,
    )
  where
    c : ℕ
    c = (w.server k).channel

    h : ℕ
    h = (w.server k).host

    ss : List ℕ
    ss = (w.channel c).subscriptors

    w1 : World
    w1 = accept_subscriptor k ip port w

    joined : Joined c h w w1
    joined = accept_subscriptor-Joined k ip port w
