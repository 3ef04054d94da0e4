-- ===== src/Graph/Silent.antt =====
-- What the constructor of GraphMonitor::Impl (src/rcllite/graph.cpp) leaves alone in CycloneDDS.
use rcllite.Prelude.{ℕ, ◌≡◌, refl, ◌∙◌, arith, Option, List, [], ◌∷◌, Bytes, text, Error}
use rcllite.Dds.Qos.{Qos}
use rcllite.Dds.Config.{Environment, Context}
use rcllite.Dds.Calls.{
  create_builtin_reader, create_waitset, waitset_attach, create_guardcondition,
  create_readcondition, get_guid, delete, Trace, Cyclone, sent, ask, return, handle_of, call, lift,
  on_throw,
}
use rcllite.Dds.Entities.{
  Participant, Reader, make_reader, make_participant, make_domain, make_endpoints, make_guard,
  delete_guard, delete_reader, delete_participant,
}
use rcllite.Dds.Alive.{live_qos, make_reader-live_qos, make_participant-live_qos}
use rcllite.Names.Maps.{ros_to_dds_topic_name}
use rcllite.Dds.Keeps.{Keeps, Stays-then, Stays-cleaned}
use rcllite.Executor.Construct.{attach_all}
use rcllite.Graph.State.{max_logs}
use rcllite.Graph.Construct.{
  BuiltinTopics, slots, owner, set_up_failed, all_made, latched, delete_members, set_up_waitset,
  make_conditions, make_builtin, construct_readers, construct_monitor,
}

-- A quantity that changes neither with the calls that the constructor makes itself nor with the
-- constructors of what it holds.
record Ignores {V : Type 0} (cyclone : Cyclone) (view : Trace → V) : Type 0 where
  guid : (h : ℕ) (t : Trace) → view (get_guid h ∷ t) ≡ view t
  builtin : (p k : ℕ) (t : Trace) → view (create_builtin_reader p k ∷ t) ≡ view t
  condition : (r : ℕ) (t : Trace) → view (create_readcondition r ∷ t) ≡ view t
  waitset : (t : Trace) → view (create_waitset ∷ t) ≡ view t
  attach : (ws : ℕ) (e : Option ℕ) (x : ℕ) (t : Trace) → view (waitset_attach ws e x ∷ t) ≡ view t
  guard : (t : Trace) → view (create_guardcondition ∷ t) ≡ view t
  deletes : (h : ℕ) (t : Trace) → view (delete h ∷ t) ≡ view t
  reader :
      (p s : ℕ) (topic type : Bytes) (qos : Qos)
      → Keeps view (make_reader cyclone p s topic type qos)
  participant :
      (env : Environment) (ctx : Context) (d : ℕ) (enclave : Bytes)
      → Keeps view (make_participant cyclone env ctx d enclave)

module _ {V : Type 0} (cyclone : Cyclone) (view : Trace → V) (ignores : Ignores cyclone view) where
  delete_members-Keeps : (guard : ℕ) (rs : List Reader) → Keeps view (delete_members guard rs)
  unfolding delete_guard delete_reader
  delete_members-Keeps guard [] t = record { stays = ignores.deletes guard t }
  delete_members-Keeps guard (r ∷ rs) t =
      Stays-then (delete_members guard rs t) (delete_members-Keeps guard rs t) (λ u t'. record {
        stays = ignores.deletes r.rd (delete r.rc ∷ t') ∙ ignores.deletes r.rc t';
      })

  attach_all-Keeps :
      (e : Error) (ws : ℕ) (slots : List (Option ℕ × ℕ))
      → Keeps view (attach_all cyclone e ws slots)
  unfolding attach_all
  attach_all-Keeps e ws [] t = record { stays = refl }
  attach_all-Keeps e ws ((entity, x) ∷ rest) t =
      Stays-then (call cyclone (waitset_attach ws entity x) e t)
        (record { stays = ignores.attach ws entity x t }) (λ rc. attach_all-Keeps e ws rest)

  module _ (topics : BuiltinTopics) (info_type log_type : Bytes) where
    set_up_waitset-Keeps :
        (guard : ℕ) (a b c : Option ℕ) (disc logs : Reader)
        → Keeps view (set_up_waitset cyclone topics info_type log_type guard a b c disc logs)
    unfolding set_up_waitset
    set_up_waitset-Keeps guard a b c disc logs t =
        Stays-then (call cyclone create_waitset set_up_failed t)
          (record { stays = ignores.waitset t })
          (λ ws t'.
            Stays-then (attach_all cyclone set_up_failed ws (slots guard a b c disc logs) t')
              (attach_all-Keeps set_up_failed ws (slots guard a b c disc logs) t')
              (λ u t2. record { stays = refl }))

    make_conditions-Keeps :
        (made : ℕ × ℕ × ℕ) → Keeps view (make_conditions cyclone topics info_type log_type made)
    unfolding make_conditions
    make_conditions-Keeps made t =
        let t1 : Trace = create_readcondition made.0 ∷ t in
        let t2 : Trace = create_readcondition made.1 ∷ t1 in
        record {
          stays =
              ignores.condition made.2 t2
              ∙ ignores.condition made.1 t1
              ∙ ignores.condition made.0 t;
        }

    make_builtin-Keeps :
        (ppant : Participant) → Keeps view (make_builtin cyclone topics info_type log_type ppant)
    unfolding make_builtin
    make_builtin-Keeps ppant t =
        Stays-then (ask cyclone (create_builtin_reader ppant.handle topics.participant) t)
          (record { stays = ignores.builtin ppant.handle topics.participant t })
          (λ part t1.
            Stays-then (ask cyclone (create_builtin_reader ppant.handle topics.publication) t1)
              (record { stays = ignores.builtin ppant.handle topics.publication t1 })
              (λ publ t2.
                Stays-then (ask cyclone (create_builtin_reader ppant.handle topics.subscription) t2)
                  (record { stays = ignores.builtin ppant.handle topics.subscription t2 })
                  (λ subs t3.
                    Stays-then
                      (lift (all_made (handle_of part) (handle_of publ) (handle_of subs)) t3)
                      (record { stays = refl }) make_conditions-Keeps)))

    construct_readers-Keeps :
        (ppant : Participant) (guard : ℕ)
        → Keeps view (construct_readers cyclone topics info_type log_type ppant guard)
    unfolding construct_readers
    construct_readers-Keeps ppant guard t =
        Stays-then (ask cyclone (get_guid ppant.handle) t)
          (record { stays = ignores.guid ppant.handle t })
          (λ guid t0.
            Stays-then
              (on_throw (delete_members guard [])
                (make_builtin cyclone topics info_type log_type ppant) t0)
              (Stays-cleaned (delete_members guard []) _ (delete_members-Keeps guard [])
                (make_builtin-Keeps ppant t0))
              (λ made t1.
                Stays-then
                  (on_throw (delete_members guard [])
                    (make_reader cyclone ppant.handle ppant.subscriber (text "ros_discovery_info")
                      info_type (latched 1))
                    t1)
                  (Stays-cleaned (delete_members guard []) _ (delete_members-Keeps guard []) (
                    ignores.reader ppant.handle ppant.subscriber (text "ros_discovery_info")
                      info_type (latched 1) t1))
                  (λ disc t2.
                    Stays-then (lift (ros_to_dds_topic_name (text "/rosout")) t2)
                      (record { stays = refl })
                      (λ topic t3.
                        Stays-then
                          (on_throw (delete_members guard (disc ∷ []))
                            (make_reader cyclone ppant.handle ppant.subscriber topic log_type
                              (latched max_logs))
                            t3)
                          (Stays-cleaned (delete_members guard (disc ∷ [])) _
                            (delete_members-Keeps guard (disc ∷ []))
                            (ignores.reader ppant.handle ppant.subscriber topic log_type
                              (latched max_logs) t3))
                          (λ logs t4.
                            Stays-then
                              (on_throw (delete_members guard (disc ∷ logs ∷ []))
                                (set_up_waitset cyclone topics info_type log_type guard made.1.0
                                  made.1.1 made.1.2 disc logs)
                                t4)
                              {f = λ ws. return (owner ppant made.0 made.1 disc logs guard guid ws)}
                              (Stays-cleaned (delete_members guard (disc ∷ logs ∷ [])) _
                                (delete_members-Keeps guard (disc ∷ logs ∷ []))
                                (set_up_waitset-Keeps guard made.1.0 made.1.1 made.1.2 disc logs
                                  t4))
                              (λ ws t5. record { stays = refl }))))))

    construct_monitor-Keeps :
        (env : Environment) (ctx : Context)
        → Keeps view (construct_monitor cyclone topics info_type log_type env ctx)
    unfolding construct_monitor delete_participant make_guard
    construct_monitor-Keeps env ctx t =
        Stays-then (make_participant cyclone env ctx ctx.domain_id [] t)
          (ignores.participant env ctx ctx.domain_id [] t)
          (λ ppant t1.
            Stays-then (on_throw (delete_participant ppant) (make_guard cyclone) t1)
              (Stays-cleaned (delete_participant ppant) _
                (λ u. record { stays = ignores.deletes ppant.handle u })
                (record { stays = ignores.guard t1 }))
              (λ guard t2.
                Stays-cleaned (delete_participant ppant) _
                  (λ u. record { stays = ignores.deletes ppant.handle u })
                  (construct_readers-Keeps ppant guard t2)))

make_reader-sent :
    (cyclone : Cyclone) (p s : ℕ) (topic type : Bytes) (qos : Qos)
    → Keeps sent (make_reader cyclone p s topic type qos)
unfolding make_reader sent
make_reader-sent cyclone p s topic type qos trace = record { stays = ground arith }

make_participant-sent :
    (cyclone : Cyclone) (env : Environment) (ctx : Context) (d : ℕ) (enclave : Bytes)
    → Keeps sent (make_participant cyclone env ctx d enclave)
unfolding make_participant make_domain make_endpoints sent
make_participant-sent cyclone env ctx d enclave trace = record { stays = ground arith }

Ignores-sent : (cyclone : Cyclone) → Ignores cyclone sent
unfolding sent
Ignores-sent cyclone = record {
  guid = λ h t. refl;
  builtin = λ p k t. refl;
  condition = λ r t. refl;
  waitset = λ t. refl;
  attach = λ ws e x t. refl;
  guard = λ t. refl;
  deletes = λ h t. refl;
  reader = make_reader-sent cyclone;
  participant = make_participant-sent cyclone;
}

Ignores-live_qos : (cyclone : Cyclone) → Ignores cyclone (live_qos cyclone)
unfolding live_qos
Ignores-live_qos cyclone = record {
  guid = λ h t. refl;
  builtin = λ p k t. refl;
  condition = λ r t. refl;
  waitset = λ t. refl;
  attach = λ ws e x t. refl;
  guard = λ t. refl;
  deletes = λ h t. refl;
  reader =
      λ p s topic type qos t. record { stays = make_reader-live_qos cyclone p s topic type qos t };
  participant = λ env ctx d enclave t. record {
    stays = make_participant-live_qos cyclone env ctx d enclave t;
  };
}

-- Whatever CycloneDDS answers, and whether it returns or throws, the constructor of the graph
-- monitor publishes nothing and frees each dds_qos_t that it allocates.
pub construct_monitor-silent :
    (cyclone : Cyclone) (topics : BuiltinTopics) (info_type log_type : Bytes) (env : Environment)
    (ctx : Context) (trace : Trace)
    → (sent (construct_monitor cyclone topics info_type log_type env ctx trace).0 ≡ sent trace)
      × (live_qos cyclone (construct_monitor cyclone topics info_type log_type env ctx trace).0
          ≡ live_qos cyclone trace)
construct_monitor-silent cyclone topics info_type log_type env ctx trace = (
  (construct_monitor-Keeps cyclone sent (Ignores-sent cyclone) topics info_type log_type env ctx
      trace).stays,
  (construct_monitor-Keeps cyclone (live_qos cyclone) (Ignores-live_qos cyclone) topics info_type
      log_type env ctx trace).stays,
)
