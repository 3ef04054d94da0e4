-- ===== src/Node.antt =====
-- class Node of src/rcllite/node.cpp: its names and its entities. An entity is named by a number,
-- as its shared pointer is.
pub mod Endpoints
pub mod Wait
pub mod WaitLaws
pub mod Construct
pub mod Announced
pub mod Delivery
mod Tests
mod DeliveryTests
use rcllite.Prelude.{
  ℕ, ◌+◌, ◌%◌, ◌^◌, Bool, true, false, ◌||◌, List, [], ◌∷◌, ◌++◌, Bytes, Result, ok,
  invalid_arguments, unless, ◌>>=◌, ◌==◌, if◌then◌else◌,
}
use rcllite.Names.Search.{is_empty, slash, find_byte, found}
use rcllite.Names.Maps.{make_fq_node_name}

-- `guard` says whether the change guard is triggered.
pub record Node : Type 0 where
  pub name : Bytes
  pub ns : Bytes
  pub fq_name : Bytes
  pub entities : List ℕ
  pub entity_epoch : ℕ
  pub guard : Bool

-- The constructor. `participant` makes the DDS participant for an enclave and announces the node.
unfoldable pub new_node : (Bytes → Result (Unit {0})) → Bytes → Bytes → Result Node
new_node participant name namespace = do
  let ns = if is_empty namespace then slash ∷ [] else namespace in
      do
        fq ← make_fq_node_name ns name
        unless (is_empty name || found (find_byte slash name))
            (invalid_arguments "invalid node name: {}" (name ∷ []))
            (do
              made ← participant fq
              ok (record {
                name = name;
                ns = ns;
                fq_name = fq;
                entities = [];
                entity_epoch = 0;
                guard = false;
              }))

-- entities_.erase(std::remove(...), ...)
unfoldable pub without : ℕ → List ℕ → List ℕ
without entity [] = []
without entity (e ∷ es) = let rest = without entity es in if e == entity then rest else e ∷ rest

unfoldable pub add_entity : ℕ → Node → Node
add_entity entity n = record n {
  entities = n.entities ++ (entity ∷ []);
  entity_epoch = (n.entity_epoch + 1) % 2 ^ 64;
  guard = true;
}

unfoldable pub remove_entity : ℕ → Node → Node
unfolding without
remove_entity entity n = record n {
  entities = without entity n.entities;
  entity_epoch = (n.entity_epoch + 1) % 2 ^ 64;
  guard = true;
}
