-- ===== src/Names/Apart.antt =====
-- The DDS topic names of src/rcllite/names.cpp against the ROS names.
use rcllite.Prelude.{
  ◌≡◌, refl, ap, sym, ◌∙◌, [], ◌++◌, arith, Bytes, text, drop, append-nil, Result, ok, err, ◌>>=◌,
}
use mathlib.Core.List.{append_cancel_right}
use rcllite.Names.Maps.{
  ros_to_dds_topic_name, ros_to_dds_request_topic_name, ros_to_dds_reply_topic_name,
}

pub data Channel : Type 0 where
  topic request reply : Channel

-- The three maps as one function.
unfoldable pub dds_name : Channel → Bytes → Result Bytes
dds_name topic = ros_to_dds_topic_name
dds_name request = ros_to_dds_request_topic_name
dds_name reply = ros_to_dds_reply_topic_name

abbrev pub prefix : Channel → Bytes
prefix topic = text "rt"
prefix request = text "rq"
prefix reply = text "rr"

abbrev pub suffix : Channel → Bytes
suffix topic = []
suffix request = text "Request"
suffix reply = text "Reply"

bind_ok : {A B : Type 0} (m : Result A) (b c : B) → (m >>= λ a. ok b) ≡ ok c → b ≡ c
bind_ok (ok a) b c h = cc
bind_ok (err e) b c h = cc

shape : (k : Channel) (a x : Bytes) → dds_name k a ≡ ok x → prefix k ++ (a ++ suffix k) ≡ x
unfolding dds_name ros_to_dds_topic_name ros_to_dds_request_topic_name ros_to_dds_reply_topic_name
shape topic a x h = ap (λ l. text "rt" ++ l) (append-nil a) ∙ bind_ok _ _ x h
shape request a x h = bind_ok _ _ x h
shape reply a x h = bind_ok _ _ x h

-- Two ROS names that have one DDS name are the same name, used for the same kind of channel.
pub dds_name_injective :
    (k l : Channel) (a b x : Bytes) → dds_name k a ≡ ok x → dds_name l b ≡ ok x → (k ≡ l) × (a ≡ b)
dds_name_injective k l a b x p q = go k l (shape k a x p ∙ sym (shape l b x q))
  where
    go :
        (k l : Channel)
        → prefix k ++ (a ++ suffix k) ≡ prefix l ++ (b ++ suffix l)
        → (k ≡ l) × (a ≡ b)
    go topic topic e = (refl, append_cancel_right a b [] (ap (drop 2) e))
    go request request e = (refl, append_cancel_right a b (suffix request) (ap (drop 2) e))
    go reply reply e = (refl, append_cancel_right a b (suffix reply) (ap (drop 2) e))
    go topic request e = absurd (ground (arith, e))
    go topic reply e = absurd (ground (arith, e))
    go request topic e = absurd (ground (arith, e))
    go request reply e = absurd (ground (arith, e))
    go reply topic e = absurd (ground (arith, e))
    go reply request e = absurd (ground (arith, e))
