-- ===== src/Topology/ReadBack.antt =====
-- status_json of src/rcllite/graph_executor.cpp against the reader of Topology.Reader.
use rcllite.Prelude.{
  ℕ, suc, ◌≤◌, ◌≡◌, refl, ap, ◌∙◌, arith, Bool, true, false, Option, some, List, [], ◌∷◌, ◌++◌,
  Bytes, text, map, length, length-append, append_assoc,
}
use rcllite.Json.Escape.{json_escape_string, decimal}
use rcllite.Json.Unescape.{parse_string, json_escape_string-parse}
use rcllite.Topology.State.{RawPublisher, RawSubscription, NodeEntry}
use rcllite.Topology.Status.{publisher_json, subscription_json, items_json, node_json, status_json}
use rcllite.Topology.Reader.{
  Reading, and_then, expect, expect-append, read_number, read_number-decimal, read_items, EndsItems,
  read_items-items_json,
}

-- A topic, its type and a count; and the name of a node with its publishers and subscriptions.
abbrev pub Report : Type 0
Report = Bytes × Bytes × ℕ

abbrev pub NodeReport : Type 0
NodeReport = Bytes × List Report × List Report

-- A publisher or a subscription, by the text in front of its count.
unfoldable pub read_endpoint : Bytes → Reading Report
read_endpoint key s = and_then (expect (text "\"topic\":") s) (λ u s1.
    and_then (parse_string s1) (λ topic s2. and_then (expect (text ",\"type\":") s2) (λ u s3.
      and_then (parse_string s3) (λ type s4. and_then (expect key s4) (λ u s5.
        and_then (read_number s5)
          (λ n s6. and_then (expect (text "}") s6) (λ u s7. some ((topic, type, n), s7))))))))

abbrev read_list : {A : Type 0} → Reading A → Reading (List A)
read_list item s = read_items item (suc (length s)) true s

unfoldable pub read_node : Reading NodeReport
unfolding read_endpoint
read_node s = and_then (expect (text "\"name\":") s) (λ u s1. and_then (parse_string s1) (λ name s2.
    and_then (expect (text ",\"publishers\":[") s2) (λ u s3.
      and_then (read_list (read_endpoint (text ",\"published\":")) s3) (λ publishers s4.
        and_then (expect (text "],\"subscriptions\":[") s4) (λ u s5.
          and_then (read_list (read_endpoint (text ",\"received\":")) s5) (λ subscriptions s6.
            and_then (expect (text "]}") s6)
              (λ u s7. some ((name, publishers, subscriptions), s7))))))))

unfoldable pub read_status : Reading (List NodeReport)
unfolding read_node
read_status s = and_then (expect (text "{\"nodes\":[") s) (λ u s1.
    and_then (read_list read_node s1)
      (λ nodes s2. and_then (expect (text "]}") s2) (λ u s3. some (nodes, s3))))

abbrev pub publisher_report : RawPublisher → Report
publisher_report p = (p.topic, p.type, p.published)

abbrev pub subscription_report : RawSubscription → Report
subscription_report s = (s.topic, s.type, s.received)

abbrev pub node_report : NodeEntry → NodeReport
node_report n =
    (n.fq_name, map publisher_report n.publishers, map subscription_report n.subscriptions)

step :
    {A B : Type 0} {r : Option (A × Bytes)} {a : A} {s : Bytes} (f : A → Reading B)
    → r ≡ some (a, s)
    → and_then r f ≡ f a s
step f e = ap (λ r. and_then r f) e

module _ (key topic type : Bytes) (n : ℕ) (rest : Bytes) where
  abbrev after_count : Bytes
  after_count = decimal n ++ (text "}" ++ rest)

  abbrev after_topic : Bytes
  after_topic = text ",\"type\":" ++ (json_escape_string type ++ (key ++ after_count))

  abbrev made : Option (Report × Bytes)
  made = some ((topic, type, n), rest)

  abbrev behind_count : ℕ → Reading Report
  behind_count m s6 = and_then (expect (text "}") s6) (λ u s7. some ((topic, type, m), s7))

  read_endpoint_written :
      read_endpoint key (text "\"topic\":" ++ (json_escape_string topic ++ after_topic)) ≡ made
  unfolding read_endpoint
  read_endpoint_written =
      step _ (expect-append (text "\"topic\":") (json_escape_string topic ++ after_topic))
      ∙ step _ (json_escape_string-parse topic after_topic)
      ∙ step _ (expect-append (text ",\"type\":") (json_escape_string type ++ (key ++ after_count)))
      ∙ step _ (json_escape_string-parse type (key ++ after_count))
      ∙ step _ (expect-append key after_count)
      ∙ step behind_count (read_number-decimal n (text "}" ++ rest) refl)
      ∙ step _ (expect-append (text "}") rest)

read_publisher :
    (p : RawPublisher) (rest : Bytes)
    → read_endpoint (text ",\"published\":") (publisher_json p ++ rest)
      ≡ some (publisher_report p, rest)
unfolding publisher_json
read_publisher p rest =
    rw nested (read_endpoint_written (text ",\"published\":") p.topic p.type p.published rest)
  where
    nested :
        publisher_json p ++ rest
        ≡ text "\"topic\":"
          ++ (json_escape_string p.topic
              ++ after_topic (text ",\"published\":") p.topic p.type p.published rest)
    nested = simp append_assoc

read_subscription :
    (p : RawSubscription) (rest : Bytes)
    → read_endpoint (text ",\"received\":") (subscription_json p ++ rest)
      ≡ some (subscription_report p, rest)
unfolding subscription_json
read_subscription p rest =
    rw nested (read_endpoint_written (text ",\"received\":") p.topic p.type p.received rest)
  where
    nested :
        subscription_json p ++ rest
        ≡ text "\"topic\":"
          ++ (json_escape_string p.topic
              ++ after_topic (text ",\"received\":") p.topic p.type p.received rest)
    nested = simp append_assoc

length-items_json :
    {A : Type 0} (print : A → Bytes) (first : Bool) (xs : List A)
    → length xs ≤ length (items_json print first xs)
unfolding items_json
length-items_json print first [] = omega arith
length-items_json print true (x ∷ xs) =
    omega
      (arith, length-append (print x) (items_json print false xs), length-items_json print false xs)
length-items_json print false (x ∷ xs) =
    omega
      (arith, length-append (print x) (items_json print false xs), length-items_json print false xs)

read_list_written :
    {A B : Type 0} (print : A → Bytes) (view : A → B) (item : Reading B)
    → ((a : A) (rest : Bytes) → item (print a ++ rest) ≡ some (view a, rest))
    → (xs : List A) (rest : Bytes) → EndsItems rest
    → read_list item (items_json print true xs ++ rest) ≡ some (map view xs, rest)
read_list_written print view item reads xs rest e =
    read_items-items_json print view item reads _ true xs rest
      (omega
        (arith, length-append (items_json print true xs) rest, length-items_json print true xs))
      e

bracket_ends : (rest : Bytes) → EndsItems (b']' ∷ rest)
unfolding expect
bracket_ends rest = (refl, refl)

module _ (n : NodeEntry) (rest : Bytes) where
  abbrev after_publishers : Bytes
  after_publishers =
      text "],\"subscriptions\":["
      ++ (items_json subscription_json true n.subscriptions ++ (text "]}" ++ rest))

  abbrev after_name : Bytes
  after_name =
      text ",\"publishers\":[" ++ (items_json publisher_json true n.publishers ++ after_publishers)

  read_node_written : read_node (node_json n ++ rest) ≡ some (node_report n, rest)
  unfolding read_node node_json
  read_node_written =
      ap read_node nested
      ∙ step _ (expect-append (text "\"name\":") (json_escape_string n.fq_name ++ after_name))
      ∙ step _ (json_escape_string-parse n.fq_name after_name)
      ∙ step _ (
          expect-append (text ",\"publishers\":[")
            (items_json publisher_json true n.publishers ++ after_publishers))
      ∙ step _ (
          read_list_written publisher_json publisher_report _ read_publisher n.publishers
            after_publishers (bracket_ends _))
      ∙ step _ (
          expect-append (text "],\"subscriptions\":[")
            (items_json subscription_json true n.subscriptions ++ (text "]}" ++ rest)))
      ∙ step _ (
          read_list_written subscription_json subscription_report _ read_subscription
            n.subscriptions (text "]}" ++ rest) (bracket_ends _))
      ∙ step _ (expect-append (text "]}") rest)
    where
      nested :
          node_json n ++ rest ≡ text "\"name\":" ++ (json_escape_string n.fq_name ++ after_name)
      nested = simp append_assoc

-- A reader of literals, numbers and lists of objects finds in the document that status_json
-- writes every node by its name, with the topic, the type and the count of each publisher and
-- each subscription, in order, and nothing behind it.
pub read_status-status_json :
    (nodes : List NodeEntry) → read_status (status_json nodes) ≡ some (map node_report nodes, [])
unfolding read_status status_json
read_status-status_json nodes =
    ap read_status
      (append_assoc (text "{\"nodes\":[") (items_json node_json true nodes) (text "]}"))
    ∙ step _ (expect-append (text "{\"nodes\":[") (items_json node_json true nodes ++ text "]}"))
    ∙ step _ (
        read_list_written node_json node_report read_node read_node_written nodes (text "]}")
          (bracket_ends _))
    ∙ step _ (expect-append (text "]}") [])
