-- ===== src/Executor/Construct.antt =====
-- The constructor and the destructor of class Executor (src/rcllite/executor.cpp), with the calls of
-- CycloneDDS that they make.
use rcllite.Prelude.{ℕ, some, Option, List, [], ◌∷◌, internal_error, Error}
use rcllite.Dds.Calls.{
  create_waitset, waitset_attach, delete, Io, Cyclone, ◌>>=◌, return, call, perform, on_throw,
}
use rcllite.Dds.Entities.{make_guard, delete_guard}

pub record ExecutorOwner : Type 0 where
  pub waitset : ℕ
  pub cancel_guard : ℕ
  pub wake_guard : ℕ

abbrev pub cancel_attachment : ℕ
cancel_attachment = 1

abbrev pub wake_attachment : ℕ
wake_attachment = 2

-- dds_waitset_attach(...) < 0 || ...: the first failure ends the chain.
unfoldable pub attach_all : Cyclone → Error → ℕ → List (Option ℕ × ℕ) → Io (Unit {0})
attach_all cyclone e ws [] = return tt
attach_all cyclone e ws ((entity, x) ∷ rest) = do
  rc ← call cyclone (waitset_attach ws entity x) e
  attach_all cyclone e ws rest

-- The body of the constructor, behind the initializers of the guards.
unfoldable pub construct_waitset : Cyclone → ℕ → ℕ → Io ExecutorOwner
unfolding attach_all
construct_waitset cyclone cancel_guard wake_guard = do
  ws ← call cyclone create_waitset (internal_error "dds_create_waitset failed" [])
  u ←
      attach_all cyclone (internal_error "failed to attach executor guards" []) ws
        ((some cancel_guard, cancel_attachment) ∷ (some wake_guard, wake_attachment) ∷ [])
  return (record { waitset = ws; cancel_guard = cancel_guard; wake_guard = wake_guard })

abbrev delete_guards : ℕ → ℕ → Io (Unit {0})
delete_guards cancel_guard wake_guard = do u ← delete_guard wake_guard; delete_guard cancel_guard

unfoldable pub construct_executor : Cyclone → Io ExecutorOwner
unfolding construct_waitset
construct_executor cyclone = do
  cancel_guard ← make_guard cyclone
  wake_guard ← on_throw (delete_guard cancel_guard) (make_guard cyclone)
  on_throw (delete_guards cancel_guard wake_guard)
      (construct_waitset cyclone cancel_guard wake_guard)

unfoldable pub delete_executor : ExecutorOwner → Io (Unit {0})
delete_executor e = do u ← perform (delete e.waitset); delete_guards e.cancel_guard e.wake_guard
