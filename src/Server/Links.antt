-- ===== src/Server/Links.antt =====
-- What src/server.rs uses of tokio: the channel of datagrams to a connection, and the semaphore
-- that its socket closes. Sessions and cached sessions share them, so they stand in a store.
use rust_raknet.Prelude.{
  ℕ, Bool, true, false, not, ◌&&◌, List, [], ◌∷◌, ◌++◌, length, ltb, ◌==◌, if◌then◌else◌,
}

-- `channel::<Vec<u8>>(128)`: the datagrams that wait, whether its receiver is there, and whether
-- the semaphore `close_notifier` of the socket is closed.
pub record Link : Type 0 where
  pub inbox : List (List ℕ)
  pub receiving : Bool
  pub closed : Bool

abbrev pub Links : Type 0
Links = ℕ → Link

abbrev pub capacity : ℕ
capacity = 128

abbrev pub fresh_link : Link
fresh_link = record { inbox = []; receiving = true; closed = false }

-- An assignment to one place of a table.
unfoldable pub assign {ℓ} : {A : Type ℓ} → (ℕ → A) → ℕ → A → ℕ → A
assign table i a j = if i == j then a else table j

-- Not `close.is_closed()` and not `sender.is_closed()`.
unfoldable pub is_live : Link → Bool
is_live link = not link.closed && link.receiving

-- `Sender::try_send`.
pub data Sent : Type 0 where
  accepted full no_receiver : Sent

unfoldable pub try_send : Link → List ℕ → Sent × Link
try_send link datagram =
    if link.receiving
    then if ltb (length link.inbox) capacity
      then (accepted, record link { inbox = link.inbox ++ (datagram ∷ []) })
      else (full, link)
    else (no_receiver, link)

-- `Semaphore::close`.
unfoldable pub close_link : Links → ℕ → Links
unfolding assign
close_link links i = assign links i (record (links i) { closed = true })
