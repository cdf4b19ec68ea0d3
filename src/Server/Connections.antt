-- ===== src/Server/Connections.antt =====
-- What a server does to the sockets of its connections, and to no other.
use libpubsub.Base.{
  Bool-cases, Bytes, List, [], append-nil, append_assoc, arith, false, if◌then◌else◌, inl, inr,
  refl, suc, sym, true, zero, ℕ, ◌++◌, ◌==◌, ◌∙◌, ◌∷◌, ◌≡◌, ◌⊎◌,
}
use libpubsub.Socket.{Socket, write_bytes}
use libpubsub.Socket
use libpubsub.World.{update}
use libpubsub.Server.{TcpServer, close_each, write_each, close, broadcast}

-- How often the address stands in the list.
unfoldable pub count : ℕ → List ℕ → ℕ
count k [] = 0
count k (a ∷ rest) = let n = count k rest in if a == k then suc n else n

-- The same bytes several times.
pub repeated : ℕ → Bytes → List Bytes
repeated zero msg = []
repeated (suc n) msg = msg ∷ repeated n msg

write_each-sent :
    (msg : Bytes) (l : List ℕ) (heap : ℕ → Socket) (k : ℕ)
    → (write_each msg l heap k).sent ≡ (heap k).sent ++ repeated (count k l) msg
unfolding write_each repeated count
write_each-sent msg [] heap k = sym (append-nil (heap k).sent)
write_each-sent msg (a ∷ l) heap k =
    write_each-sent msg l (update heap a (write_bytes msg (heap a))) k ∙ here (Bool-cases (a == k))
  where
    here :
        ((a == k) ≡ true) ⊎ ((a == k) ≡ false)
        → (update heap a (write_bytes msg (heap a)) k).sent ++ repeated (count k l) msg
          ≡ (heap k).sent ++ repeated (count k (a ∷ l)) msg
    here (inl e) =
        let same : a ≡ k = ground arith in
        unfold count repeated write_bytes in
        rw (e, same) (append_assoc (heap k).sent (msg ∷ []) (repeated (count k l) msg))
    here (inr e) = unfold count in rw e

-- A socket after a server with `n` connections on it is closed.
pub shut_if : ℕ → Socket → Socket
unfolding Socket.close
shut_if zero s = s
shut_if (suc n) s = Socket.close false s

shut_twice : (n : ℕ) (s : Socket) → shut_if n (Socket.close false s) ≡ Socket.close false s
unfolding shut_if
shut_twice zero s = refl
shut_twice (suc n) s = unfold Socket.close in refl

close_each-shut :
    (l : List ℕ) (heap : ℕ → Socket) (k : ℕ) → close_each l heap k ≡ shut_if (count k l) (heap k)
unfolding close_each shut_if count
close_each-shut [] heap k = refl
close_each-shut (a ∷ l) heap k =
    close_each-shut l (update heap a (Socket.close false (heap a))) k ∙ here (Bool-cases (a == k))
  where
    here :
        ((a == k) ≡ true) ⊎ ((a == k) ≡ false)
        → shut_if (count k l) (update heap a (Socket.close false (heap a)) k)
          ≡ shut_if (count k (a ∷ l)) (heap k)
    here (inl e) =
        let same : a ≡ k = ground arith in
        unfold count shut_if in rw (e, same) (shut_twice (count k l) (heap k))
    here (inr e) = unfold count in rw e

-- TCPServer::broadcast sends the bytes as they are, on each socket once for every time it stands
-- among the connections, and TCPServer::close shuts each socket that stands there and no other; it
-- leaves what the socket does about reconnecting.
pub server-connections :
    (msg : Bytes) (v : TcpServer) (heap : ℕ → Socket) (k : ℕ)
    → ((broadcast msg v heap k).sent ≡ (heap k).sent ++ repeated (count k v.connections) msg)
      × ((close v heap).1 k ≡ shut_if (count k v.connections) (heap k))
unfolding broadcast close
server-connections msg v heap k =
    (write_each-sent msg v.connections heap k, close_each-shut v.connections heap k)
