-- ===== src/Socket/World.antt =====
-- A process with sockets: what any sequence of their operations does to the open descriptors. The
-- objects are in no order, so that an operation is one on the first of them.
use libcoda_net.Base.{ℕ, Bool, false, Option, some, List, ◌∷◌, ◌++◌, ◌≡◌}
use libcoda_net.Socket.{
  Socket, Fds, fresh, is_valid, Attempt, Binding, connect, listen, close, move_assign, set_secure,
  set_non_blocking,
}
use libcoda_net.Socket.Objects.{of_descriptor, move_construct, construct, destroy, accept}

pub record World : Type 0 where
  pub objects : List Socket
  pub fds : Fds

-- One operation, by what the system answers. A socket listens when it is not valid; a constructor that
-- throws is no step.
pub data Step : World → World → Type 0 where
  swaps :
      (before after : List Socket) (s o : Socket) {fds : Fds}
      → Step
          (record { objects = before ++ (s ∷ o ∷ after); fds = fds })
          (record { objects = before ++ (o ∷ s ∷ after); fds = fds })
  creates :
      {os : List Socket} {fds : Fds}
      → Step (record { objects = os; fds = fds }) (record { objects = fresh ∷ os; fds = fds })
  constructs :
      {os : List Socket} {s : Socket} {fds fds' : Fds} (openssl secure attach_ok : Bool)
      (addresses : Option (List Attempt))
      → construct openssl secure addresses attach_ok fds ≡ (some s, fds')
      → Step (record { objects = os; fds = fds }) (record { objects = s ∷ os; fds = fds' })
  accepts :
      {os : List Socket} {fds : Fds} (fd : ℕ)
      → Step
          (record { objects = os; fds = fds })
          (record { objects = of_descriptor fd ∷ os; fds = (accept (some fd) fds).1 })
  connects :
      {os : List Socket} {s : Socket} {fds : Fds} (addresses : Option (List Attempt))
      (attach_ok : Bool)
      → Step
          (record { objects = s ∷ os; fds = fds })
          (record {
            objects = (connect addresses attach_ok s fds).1 ∷ os;
            fds = (connect addresses attach_ok s fds).2;
          })
  listens :
      {os : List Socket} {s : Socket} {fds : Fds} (addresses : Option (List Binding))
      (listen_ok attach_ok : Bool)
      → is_valid s ≡ false
      → Step
          (record { objects = s ∷ os; fds = fds })
          (record {
            objects = (listen addresses listen_ok attach_ok s fds).1 ∷ os;
            fds = (listen addresses listen_ok attach_ok s fds).2;
          })
  closes :
      {os : List Socket} {s : Socket} {fds : Fds}
      → Step
          (record { objects = s ∷ os; fds = fds })
          (record { objects = (close s fds).0 ∷ os; fds = (close s fds).1 })
  moves :
      {os : List Socket} {s : Socket} {fds : Fds}
      → Step
          (record { objects = s ∷ os; fds = fds })
          (record { objects = (move_construct s).0 ∷ (move_construct s).1 ∷ os; fds = fds })
  assigns :
      {os : List Socket} {s o : Socket} {fds : Fds}
      → Step
          (record { objects = s ∷ o ∷ os; fds = fds })
          (record {
            objects = (move_assign s o fds).0 ∷ (move_assign s o fds).1 ∷ os;
            fds = (move_assign s o fds).2;
          })
  sets :
      {os : List Socket} {s : Socket} {fds : Fds} (openssl secure fcntl_ok blocking : Bool)
      → Step
          (record { objects = s ∷ os; fds = fds })
          (record {
            objects = set_non_blocking fcntl_ok blocking (set_secure openssl secure s) ∷ os;
            fds = fds;
          })
  destroys :
      {os : List Socket} {s : Socket} {fds : Fds}
      → Step (record { objects = s ∷ os; fds = fds }) (record { objects = os; fds = destroy s fds })

-- Operations in a row.
pub data Reach (w : World) : World → Type 0 where
  start : Reach w w
  later : {u v : World} → Reach w u → Step u v → Reach w v
