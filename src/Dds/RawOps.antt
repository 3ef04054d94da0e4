-- ===== src/Dds/RawOps.antt =====
-- The tables of functions of src/rcllite/dds/raw_serdata.cpp that CycloneDDS calls for samples and
-- their types, beside those of Dds.Serdata. A sample refers to its type by a number. The memory for
-- a sample is there.
use rcllite.Prelude.{
  ℕ, ◌-◌, ◌%◌, ◌^◌, Bool, true, false, Option, none, some, List, [], ◌∷◌, ◌++◌, Bytes, text, take,
  length, replicate, ltb, ◌==◌, if◌then◌else◌, same_text,
}
use rcllite.Json.Escape.{decimal}
use rcllite.Dds.Serdata.{Fragment, raw_size, raw_from_ser, raw_from_ser_iov, raw_to_ser}

-- SDK_EMPTY, SDK_KEY and SDK_DATA
pub data Kind : Type 0 where
  sdk_empty sdk_key sdk_data : Kind

pub record RawSerdata : Type 0 where
  pub type : Option ℕ
  pub kind : Kind
  pub payload : Bytes

abbrev pub raw_eqkey : RawSerdata → RawSerdata → Bool
raw_eqkey a b = true

unfoldable pub serdata_from_ser : ℕ → Kind → List Fragment → ℕ → Option RawSerdata
serdata_from_ser type kind fragchain size =
    some (record { type = some type; kind = kind; payload = raw_from_ser fragchain size })

unfoldable pub serdata_from_ser_iov : ℕ → Kind → List Bytes → ℕ → Option RawSerdata
serdata_from_ser_iov type kind iov size =
    some (record { type = some type; kind = kind; payload = raw_from_ser_iov iov size })

abbrev pub raw_from_keyhash : ℕ → Bytes → Option RawSerdata
raw_from_keyhash type keyhash = none

abbrev pub raw_from_sample : {S : Type 0} → ℕ → Kind → S → Option RawSerdata
raw_from_sample type kind sample = none

module _ {S : Type 0} (serdata_ref serdata_unref : S → S) where
  -- The part of the payload that the vector shows, its length as `bits` bits of ddsrt_iov_len_t
  -- hold it, and one more reference to the sample.
  unfoldable pub raw_to_ser_ref : ℕ → RawSerdata → ℕ → ℕ → S → Bytes × S
  raw_to_ser_ref bits d off sz refs = (raw_to_ser off (sz % 2 ^ bits) d.payload, serdata_ref refs)

  abbrev pub raw_to_ser_unref : S → S
  raw_to_ser_unref refs = serdata_unref refs

abbrev pub raw_to_sample : RawSerdata → Bool
raw_to_sample d = false

unfoldable pub raw_to_untyped : RawSerdata → Option RawSerdata
raw_to_untyped d = some (record { type = none; kind = sdk_key; payload = [] })

abbrev pub raw_untyped_to_sample : ℕ → RawSerdata → Bool
raw_untyped_to_sample type d = false

-- snprintf with a buffer of `size` bytes: what it writes and what it returns.
abbrev pub snprintf : ℕ → Bytes → Bytes × ℕ
snprintf size s = (if size == 0 then [] else take (size - 1) s ++ (0 ∷ []), length s)

unfoldable pub raw_print : RawSerdata → ℕ → Bytes × ℕ
raw_print d size =
    let (written, n) = snprintf size (text "[opq " ++ decimal (length d.payload) ++ text " b]") in
    (written, if ltb n size then n else size)

-- `size` is that of struct ddsi_keyhash.
abbrev pub raw_get_keyhash : ℕ → RawSerdata → Bytes
raw_get_keyhash size d = replicate size 0

-- raw_serdata_ops, but for what makes and frees references. A sample type is never read.
pub record SerdataOps : Type 0 where
  pub eqkey : RawSerdata → RawSerdata → Bool
  pub size : RawSerdata → ℕ
  pub from_ser : ℕ → Kind → List Fragment → ℕ → Option RawSerdata
  pub from_ser_iov : ℕ → Kind → List Bytes → ℕ → Option RawSerdata
  pub from_keyhash : ℕ → Bytes → Option RawSerdata
  pub to_ser : RawSerdata → ℕ → ℕ → Bytes
  pub to_sample : RawSerdata → Bool
  pub to_untyped : RawSerdata → Option RawSerdata
  pub untyped_to_sample : ℕ → RawSerdata → Bool
  pub print : RawSerdata → ℕ → Bytes × ℕ
  pub get_keyhash : ℕ → RawSerdata → Bytes

abbrev pub raw_serdata_ops : SerdataOps
raw_serdata_ops = record {
  eqkey = raw_eqkey;
  size = λ d. raw_size d.payload;
  from_ser = serdata_from_ser;
  from_ser_iov = serdata_from_ser_iov;
  from_keyhash = raw_from_keyhash;
  to_ser = λ d off sz. raw_to_ser off sz d.payload;
  to_sample = raw_to_sample;
  to_untyped = raw_to_untyped;
  untyped_to_sample = raw_untyped_to_sample;
  print = raw_print;
  get_keyhash = raw_get_keyhash;
}

-- What create_raw_sertype sets; its tables are those above and below.
pub record RawSertype : Type 0 where
  pub type_name : Bytes
  pub topic_has_no_key : Bool
  pub only_xcdr1 : Bool

unfoldable pub create_raw_sertype : Bytes → RawSertype
create_raw_sertype type_name = record {
  type_name = type_name;
  topic_has_no_key = true;
  only_xcdr1 = true;
}

unfoldable pub sertype_raw_equal : RawSertype → RawSertype → Bool
sertype_raw_equal a b = same_text a.type_name b.type_name

-- `std_hash` is std::hash of a text.
unfoldable pub sertype_raw_hash : (Bytes → ℕ) → RawSertype → ℕ
sertype_raw_hash std_hash tp = std_hash tp.type_name % 2 ^ 32

-- raw_sertype_ops: the members that give something.
pub record SertypeOps : Type 0 where
  pub equal : RawSertype → RawSertype → Bool
  pub hash : RawSertype → ℕ
  pub get_serialized_size : RawSertype → ℕ
  pub serialize_into : RawSertype → Bool

abbrev pub raw_sertype_ops : (Bytes → ℕ) → SertypeOps
raw_sertype_ops std_hash = record {
  equal = sertype_raw_equal;
  hash = sertype_raw_hash std_hash;
  get_serialized_size = λ tp. 0;
  serialize_into = λ tp. false;
}
