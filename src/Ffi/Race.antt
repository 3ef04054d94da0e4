-- ===== src/Ffi/Race.antt =====
-- The members of src/ffi/rcllite_ffi.cpp that use a node or a graph executor by its handle, on any
-- number of threads, beside the destroy of that handle. What stands under the lock of the registry
-- is one step. A member holds what its lookup gave until it ends; lookups that fail change nothing.
use rcllite.Prelude.{ℕ, ◌+◌, ◌-◌, ◌<◌, ◌≡◌, Bool, true, false, not, ◌||◌, ◌==◌, if◌then◌else◌}

-- The destroy of the handle: not begun, with the entry in its hands, behind cancel(), or behind the
-- end of the entry's scope.
pub data Destroyer : Type 0 where
  outside holding cancelled gone : Destroyer

-- An entry of a node, which is a shared pointer, with its use count.
pub record SharedEntry : Type 0 where
  pub registered : Bool
  pub users : ℕ
  pub destroyer : Destroyer
  pub use_count : ℕ
  pub alive : Bool
  pub used_after_free : Bool

abbrev pub created : SharedEntry
created = record {
  registered = true;
  users = 0;
  destroyer = outside;
  use_count = 1;
  alive = true;
  used_after_free = false;
}

-- A shared pointer goes; the last one takes the entry with it.
unfoldable pub release : SharedEntry → SharedEntry
release s = record s {
  use_count = s.use_count - 1;
  alive = if s.use_count == 1 then false else s.alive;
}

unfoldable pub touch : SharedEntry → SharedEntry
touch s = record s { used_after_free = s.used_after_free || not s.alive }

-- The block of NodeDestroy_ under the lock: the copy of the pointer, and the erase.
unfoldable pub take_entry : SharedEntry → SharedEntry
unfolding release
take_entry s =
    release (record s { registered = false; destroyer = holding; use_count = s.use_count + 1 })

pub data SharedStep (s : SharedEntry) : SharedEntry → Type 0 where
  look_up :
      s.registered ≡ true
      → SharedStep s (record s { users = s.users + 1; use_count = s.use_count + 1 })
  use_entry : 0 < s.users → SharedStep s (touch s)
  leave : 0 < s.users → SharedStep s (release (record s { users = s.users - 1 }))
  take_out : s.destroyer ≡ outside → s.registered ≡ true → SharedStep s (take_entry s)
  cancel_spin : s.destroyer ≡ holding → SharedStep s (touch (record s { destroyer = cancelled }))
  drop_entry : s.destroyer ≡ cancelled → SharedStep s (release (record s { destroyer = gone }))

pub data SharedReach : SharedEntry → Type 0 where
  shared_start : SharedReach created
  shared_next : {s t : SharedEntry} → SharedReach s → SharedStep s t → SharedReach t

-- A graph executor, which only the registry owns; graph_exec_lookup gives a bare pointer.
pub record OwnedEntry : Type 0 where
  pub registered : Bool
  pub users : ℕ
  pub destroyer : Destroyer
  pub alive : Bool
  pub used_after_free : Bool

-- executor.reset() of GraphExecDestroy_
unfoldable pub reset_entry : OwnedEntry → OwnedEntry
reset_entry s = record s { destroyer = gone; alive = false }

pub data OwnedStep (s : OwnedEntry) : OwnedEntry → Type 0 where
  owned_look_up : s.registered ≡ true → OwnedStep s (record s { users = s.users + 1 })
  owned_use :
      0 < s.users → OwnedStep s (record s { used_after_free = s.used_after_free || not s.alive })
  owned_leave : 0 < s.users → OwnedStep s (record s { users = s.users - 1 })
  owned_take :
      s.destroyer ≡ outside
      → s.registered ≡ true
      → OwnedStep s (record s { registered = false; destroyer = holding })
  owned_reset : s.destroyer ≡ holding → OwnedStep s (reset_entry s)

pub data OwnedReach (first : OwnedEntry) : OwnedEntry → Type 0 where
  owned_start : OwnedReach first first
  owned_next : {s t : OwnedEntry} → OwnedReach first s → OwnedStep s t → OwnedReach first t

abbrev pub owned_created : OwnedEntry
owned_created = record {
  registered = true;
  users = 0;
  destroyer = outside;
  alive = true;
  used_after_free = false;
}
