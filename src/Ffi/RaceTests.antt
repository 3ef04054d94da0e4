-- ===== src/Ffi/RaceTests.antt =====
-- A node and a graph executor that are destroyed beside a member that uses them.
use rcllite.Prelude.{◌<◌, ◌≡◌, refl, arith, true, false}
use rcllite.Ffi.Race.{
  holding, cancelled, gone, SharedEntry, created, release, touch, take_entry, look_up, take_out,
  cancel_spin, drop_entry, SharedReach, shared_start, shared_next, OwnedEntry, reset_entry,
  owned_look_up, owned_use, owned_leave, owned_take, owned_reset, OwnedReach, owned_start,
  owned_next, owned_created,
}
use rcllite.Ffi.Outlives.{node_outlives, graph_destroyed_alone}

-- A spin that has looked its node up, with the whole destroy behind it.
abbrev spinning : SharedEntry
spinning = record created { users = 1; use_count = 2 }

abbrev left_behind : SharedEntry
left_behind =
    release
      (record (touch (record (take_entry spinning) { destroyer = cancelled })) { destroyer = gone })

left_behind-reached : SharedReach left_behind
unfolding take_entry release touch
left_behind-reached =
    shared_next
      (shared_next (shared_next (shared_next shared_start (look_up refl)) (take_out refl refl))
        (cancel_spin refl))
      (drop_entry refl)

node_outlives_example :
    (left_behind.used_after_free ≡ false)
    × (0 < left_behind.users → left_behind.alive ≡ true)
    × (left_behind.registered ≡ false
        → left_behind.users ≡ 0
        → left_behind.destroyer ≡ gone
        → left_behind.alive ≡ false)
node_outlives_example = node_outlives left_behind left_behind-reached

-- A graph executor whose member has ended, and one whose member goes on.
abbrev deserted : OwnedEntry
deserted = record owned_created { registered = false; destroyer = holding }

deserted-reached : OwnedReach owned_created deserted
deserted-reached =
    owned_next
      (owned_next (owned_next owned_start (owned_look_up refl)) (owned_leave (omega arith)))
      (owned_take refl refl)

graph_destroyed_alone_example :
    (deserted.used_after_free ≡ false) × ((reset_entry deserted).used_after_free ≡ false)
graph_destroyed_alone_example =
    graph_destroyed_alone deserted (reset_entry deserted) deserted-reached refl refl owned_start

abbrev in_use : OwnedEntry
in_use = record owned_created { users = 1; registered = false; destroyer = holding }

used_after_reset : OwnedReach owned_created (record (reset_entry in_use) { used_after_free = true })
unfolding reset_entry
used_after_reset =
    owned_next
      (owned_next (owned_next (owned_next owned_start (owned_look_up refl)) (owned_take refl refl))
        (owned_reset refl))
      (owned_use (omega arith))
