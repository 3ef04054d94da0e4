-- ===== src/Dds/Qos.antt =====
-- src/rcllite/qos.hpp, and make_dds_qos of src/rcllite/dds/entities.cpp.
use rcllite.Prelude.{ℕ, ◌%◌, ◌^◌}

pub data Reliability : Type 0 where
  best_effort reliable : Reliability

pub data Durability : Type 0 where
  volatile transient_local : Durability

pub data History : Type 0 where
  last_only all_kept : History

pub record Qos : Type 0 where
  pub reliability : Reliability
  pub durability : Durability
  pub history : History
  pub depth : ℕ

unfoldable pub default_qos : Qos
default_qos = record {
  reliability = reliable;
  durability = volatile;
  history = last_only;
  depth = 10;
}

unfoldable pub set_best_effort : Qos → Qos
set_best_effort q = record q { reliability = best_effort }

unfoldable pub set_transient_local : Qos → Qos
set_transient_local q = record q { durability = transient_local }

unfoldable pub keep_last : ℕ → Qos → Qos
keep_last d q = record q { history = last_only; depth = d }

unfoldable pub sensor_data_qos : Qos
unfolding set_best_effort keep_last default_qos
sensor_data_qos = keep_last 5 (set_best_effort default_qos)

unfoldable pub parameters_qos : Qos
unfolding keep_last default_qos
parameters_qos = keep_last 10 default_qos

unfoldable pub parameter_events_qos : Qos
unfolding set_transient_local keep_last default_qos
parameter_events_qos = keep_last 1000 (set_transient_local default_qos)

unfoldable pub services_qos : Qos
unfolding keep_last default_qos
services_qos = keep_last 10 default_qos

-- The settings of a dds_qos_t: the kinds, and the depth as the pattern of an int32_t. Blocking and
-- deadline are infinite.
pub record DdsQos : Type 0 where
  pub history : History
  pub depth : ℕ
  pub reliability : Reliability
  pub durability : Durability

unfoldable pub make_dds_qos : Qos → DdsQos
make_dds_qos q = record {
  history = q.history;
  depth = q.depth % 2 ^ 32;
  reliability = q.reliability;
  durability = q.durability;
}
