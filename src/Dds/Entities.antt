-- ===== src/Dds/Entities.antt =====
-- class Participant, class Writer, class Reader and class GuardCondition of
-- src/rcllite/dds/entities.cpp. Handles are numbers; a sertype is one, as its pointer is.
use rcllite.Prelude.{
  ℕ, Bool, false, not, Option, none, some, [], ◌∷◌, Bytes, Result, ok, err, Error, internal_error,
  ◌==◌,
}
use rcllite.Dds.Qos.{Qos, make_dds_qos}
use rcllite.Dds.Config.{Environment, Context, participant_config, enclave_user_data}
use rcllite.Dds.Serdata.{raw_serdata_from_blob}
use rcllite.Dds.Calls.{
  create_domain, create_qos, create_guardcondition, create_participant, create_publisher,
  create_subscriber, create_readcondition, delete, create_sertype, create_topic_sertype,
  create_writer, create_reader, set_guardcondition, take_guardcondition, matched_readers,
  matched_writers, writecdr, Answer, value, precondition_not_met, failed, Io, Cyclone, ◌>>=◌,
  return, call, perform, delete_qos_after, delete_qos_if_thrown,
}

pub record Participant : Type 0 where
  pub handle : ℕ
  pub publisher : ℕ
  pub subscriber : ℕ

pub record Writer : Type 0 where
  pub wr : ℕ
  pub sertype : ℕ

pub record Reader : Type 0 where
  pub rd : ℕ
  pub rc : ℕ

abbrev qos_failed : Error
qos_failed = internal_error "dds_create_qos failed" []

abbrev sertype_failed : Bytes → Error
sertype_failed type = internal_error "failed to create sertype for {}" (type ∷ [])

abbrev topic_failed : Bytes → Error
topic_failed topic = internal_error "dds_create_topic_sertype failed for {}" (topic ∷ [])

-- A domain that is there already is no error.
abbrev domain_made : Answer → Result (Unit {0})
domain_made (value h) = ok tt
domain_made precondition_not_met = ok tt
domain_made failed = err (internal_error "dds_create_domain failed: {}" [])

-- A handle that is compared with the next one only later.
abbrev either_failed : Answer → Answer → Result (ℕ × ℕ)
either_failed (value p) (value s) = ok (p, s)
either_failed _ _ = err (internal_error "failed to create pub/sub entities" [])

module _ (cyclone : Cyclone) where
  abbrev base_dds_qos : Io ℕ
  base_dds_qos = call cyclone create_qos qos_failed

  unfoldable pub make_domain : ℕ → Option Bytes → Io (Unit {0})
  make_domain domain_id cfg trace = (
    create_domain domain_id cfg ∷ trace,
    domain_made (cyclone trace (create_domain domain_id cfg)),
  )

  unfoldable pub make_endpoints : ℕ → Io (ℕ × ℕ)
  make_endpoints pp trace =
      let trace' = create_publisher pp ∷ trace in
      (
        create_subscriber pp ∷ trace',
        either_failed (cyclone trace (create_publisher pp)) (cyclone trace' (create_subscriber pp)),
      )

  -- The constructor; `env` and `ctx` are the environment and Context::instance().
  unfoldable pub make_participant : Environment → Context → ℕ → Bytes → Io Participant
  unfolding make_domain make_endpoints
  make_participant env ctx domain_id enclave = do
    u ← make_domain domain_id (participant_config env ctx)
    q ← base_dds_qos
    pp ← delete_qos_after (
        call cyclone (create_participant domain_id (enclave_user_data enclave))
          (internal_error "dds_create_participant failed: {}" []))
    (p, s) ← make_endpoints pp
    return (record { handle = pp; publisher = p; subscriber = s })

  unfoldable pub make_writer : ℕ → ℕ → Bytes → Bytes → Qos → Io Writer
  make_writer participant dds_publisher topic type_name qos = do
    st ← call cyclone (create_sertype type_name) (sertype_failed type_name)
    q ← base_dds_qos
    tp ←
        delete_qos_if_thrown
          (call cyclone (create_topic_sertype participant topic st) (topic_failed topic))
    wr ← delete_qos_after (
        call cyclone (create_writer dds_publisher tp (make_dds_qos qos))
          (internal_error "dds_create_writer failed for {}" (topic ∷ [])))
    return (record { wr = wr; sertype = st })

  unfoldable pub make_reader : ℕ → ℕ → Bytes → Bytes → Qos → Io Reader
  make_reader participant dds_subscriber topic type_name qos = do
    st ← call cyclone (create_sertype type_name) (sertype_failed type_name)
    q ← base_dds_qos
    tp ←
        delete_qos_if_thrown
          (call cyclone (create_topic_sertype participant topic st) (topic_failed topic))
    rd ← delete_qos_after (
        call cyclone (create_reader dds_subscriber tp (make_dds_qos qos))
          (internal_error "dds_create_reader failed for {}" (topic ∷ [])))
    rc ←
        call cyclone (create_readcondition rd)
          (internal_error "dds_create_readcondition failed for {}" (topic ∷ []))
    return (record { rd = rd; rc = rc })

  -- GuardCondition's members; the answer to dds_set_guardcondition is not read, and a failed
  -- dds_take_guardcondition leaves `triggered` false.
  unfoldable pub make_guard : Io ℕ
  make_guard =
      call cyclone create_guardcondition (internal_error "dds_create_guardcondition failed" [])

  unfoldable pub take_guard : ℕ → Io Bool
  take_guard gcond trace = (
    take_guardcondition gcond ∷ trace,
    elim (cyclone trace (take_guardcondition gcond)) [
      | value triggered ↦ ok (not (triggered == 0))
      | _ ↦ ok false
    ],
  )

  -- Writer::write: `bits` is the width of ddsrt_iov_len_t. A null serdata makes no call.
  abbrev write_made : ℕ → Option Bytes → Io Bool
  write_made wr none trace = (trace, ok false)
  write_made wr (some d) trace = (
    writecdr wr d ∷ trace,
    elim (cyclone trace (writecdr wr d)) [ value rc ↦ ok (rc == 0) | _ ↦ ok false ],
  )

  unfoldable pub write : ℕ → Writer → Bytes → Io Bool
  write bits w payload = write_made w.wr (raw_serdata_from_blob bits payload)

  -- What dds_get_publication_matched_status and its counterpart show, or 0.
  unfoldable pub reader_count : Writer → Io ℕ
  reader_count w trace = (
    matched_readers w.wr ∷ trace,
    elim (cyclone trace (matched_readers w.wr)) [ value current ↦ ok current | _ ↦ ok 0 ],
  )

  unfoldable pub writer_count : Reader → Io ℕ
  writer_count r trace = (
    matched_writers r.rd ∷ trace,
    elim (cyclone trace (matched_writers r.rd)) [ value current ↦ ok current | _ ↦ ok 0 ],
  )

unfoldable pub delete_guard : ℕ → Io (Unit {0})
delete_guard gcond = perform (delete gcond)

unfoldable pub trigger : ℕ → Io (Unit {0})
trigger gcond = perform (set_guardcondition gcond)

unfoldable pub delete_participant : Participant → Io (Unit {0})
delete_participant p = perform (delete p.handle)

unfoldable pub delete_writer : Writer → Io (Unit {0})
delete_writer w = perform (delete w.wr)

unfoldable pub delete_reader : Reader → Io (Unit {0})
delete_reader r = do u ← perform (delete r.rc); perform (delete r.rd)
