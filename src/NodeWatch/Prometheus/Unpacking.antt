-- ===== src/NodeWatch/Prometheus/Unpacking.antt =====
-- What `PrometheusAction.perform_action` logs, and when it raises (src/node_watch.py).
use mathlib.Core.List.{append_assoc, append-nil}
use ethereum_testnet_bootstr.Base.{
  String, ◌≡◌, ◌≢◌, sym, ◌∙◌, refl, ap, Bool, true, false, not, ◌||◌, some, List, [], ◌∷◌, ◌++◌, ok,
  err, Error, arith, contains, ◌==◌, nat_eq, string_eq, if◌then◌else◌, Bool-cases, inl, inr,
}
use ethereum_testnet_bootstr.Base.Dict.{Dict, keys, lookup, insert}
use ethereum_testnet_bootstr.Base.Distinct.{
  insert-absent, AreDistinct, AreDistinct-middle, keys-append, lookup-eq-none,
}
use ethereum_testnet_bootstr.NodeWatch.Prometheus.{
  Reply, timeout, other_exception, replied, CleanedData, no_data, pair, alone, one_request,
  with_name, flattened_queries, append_to, group_results, perform_action,
}

-- A response that came and says that the query failed.
abbrev pub is_refused : Reply → Bool
is_refused timeout = false
is_refused other_exception = false
is_refused (replied status_code status _ _) = not (status_code == 200) || not (status == "success")

-- The data that are logged of a query whose response is not refused.
abbrev pub data_of : String → Reply → CleanedData
data_of query timeout = no_data query
data_of query other_exception = no_data query
data_of query (replied _ _ result_type samples) = record {
  query = query;
  result_type = result_type;
  results = samples;
}

one_request-data_of :
    (human_query query : String) (reply : Reply)
    → one_request human_query query reply
      ≡ (if is_refused reply then alone (no_data query) else pair human_query (data_of query reply))
unfolding one_request
one_request-data_of human_query query timeout = refl
one_request-data_of human_query query other_exception = refl
one_request-data_of human_query query (replied code status kind samples) = ground arith

module _ (request : String → String → Reply) where
  abbrev pub any_refused : List (String × String) → Bool
  any_refused [] = false
  any_refused ((name, query) ∷ rest) = is_refused (request name query) || any_refused rest

  abbrev pub data_for : String → List String → List CleanedData
  data_for name [] = []
  data_for name (query ∷ queries) = data_of query (request name query) ∷ data_for name queries

  step_alone :
      (name query : String) (rest : List (String × String))
      (grouped : Dict String (List CleanedData))
      → is_refused (request name query) ≡ true
      → group_results request ((name, query) ∷ rest) grouped
        ≡ err (Error.value_error "too many values to unpack")
  unfolding group_results
  step_alone name query rest grouped h =
      rw (one_request-data_of name query (request name query), group_results) (rw h refl)

  step_pair :
      (name query : String) (rest : List (String × String))
      (grouped : Dict String (List CleanedData))
      → is_refused (request name query) ≡ false
      → group_results request ((name, query) ∷ rest) grouped
        ≡ group_results request rest (append_to name (data_of query (request name query)) grouped)
  unfolding group_results
  step_pair name query rest grouped h =
      rw (one_request-data_of name query (request name query), group_results) (rw h refl)

  -- A refused response ends the loop with a `ValueError`.
  group_results-raises :
      (items : List (String × String)) (grouped : Dict String (List CleanedData))
      → any_refused items ≡ true
      → group_results request items grouped ≡ err (Error.value_error "too many values to unpack")
  group_results-raises [] grouped h = cc
  group_results-raises ((name, query) ∷ items) grouped h =
      elim (Bool-cases (is_refused (request name query))) [
        | inl y ↦ step_alone name query items grouped y
        | inr n ↦
            step_pair name query items grouped n
            ∙ group_results-raises items
                (append_to name (data_of query (request name query)) grouped) (ground (arith, n))
      ]

  lookup-last :
      (name : String) (found : List CleanedData) (done : Dict String (List CleanedData))
      → contains (keys done) name ≡ false
      → lookup name (done ++ ((name, found) ∷ [])) ≡ some found
  lookup-last name found [] h = ground arith
  lookup-last name found ((k, v) ∷ done) h = ground (arith, lookup-last name found done)

  insert-last :
      (name : String) (found found' : List CleanedData) (done : Dict String (List CleanedData))
      → contains (keys done) name ≡ false
      → insert name found' (done ++ ((name, found) ∷ [])) ≡ done ++ ((name, found') ∷ [])
  insert-last name found found' [] h = ground arith
  insert-last name found found' ((k, v) ∷ done) h =
      ground (arith, insert-last name found found' done)

  append_to-last :
      (name : String) (data' : CleanedData) (found : List CleanedData)
      (done : Dict String (List CleanedData))
      → contains (keys done) name ≡ false
      → append_to name data' (done ++ ((name, found) ∷ []))
        ≡ done ++ ((name, found ++ (data' ∷ [])) ∷ [])
  unfolding append_to
  append_to-last name data' found done h =
      rw (lookup-last name found done h, append_to)
        (insert-last name found (found ++ (data' ∷ [])) done h)

  append_to-new :
      (name : String) (data' : CleanedData) (done : Dict String (List CleanedData))
      → contains (keys done) name ≡ false
      → append_to name data' done ≡ done ++ ((name, data' ∷ []) ∷ [])
  unfolding append_to
  append_to-new name data' done h =
      rw (lookup-eq-none name done h, append_to) (insert-absent name (data' ∷ []) done h)

  -- The queries of a group that has begun.
  group_results-more :
      (name : String) (queries : List String) (rest : List (String × String))
      (done : Dict String (List CleanedData)) (found : List CleanedData)
      → contains (keys done) name ≡ false
      → any_refused (with_name name queries ++ rest) ≡ false
      → group_results request (with_name name queries ++ rest) (done ++ ((name, found) ∷ []))
        ≡ group_results request rest (done ++ ((name, found ++ data_for name queries) ∷ []))
  group_results-more name [] rest done found h r = simp append-nil
  group_results-more name (query ∷ queries) rest done found h r =
      step_pair name query (with_name name queries ++ rest) (done ++ ((name, found) ∷ []))
        (ground arith)
      ∙ rw (append_to-last name (data_of query (request name query)) found done h) (
          group_results-more name queries rest done
            (found ++ (data_of query (request name query) ∷ [])) h (ground arith)
          ∙ rw append_assoc refl)

  -- Each group is asked for something.
  abbrev pub AreAsked : Dict String (List String) → Type 0
  AreAsked [] = Unit
  AreAsked ((_, []) ∷ groups) = ⊥
  AreAsked ((_, query ∷ queries) ∷ groups) = AreAsked groups

  -- The data of each group, under its name.
  abbrev pub all_data : Dict String (List String) → Dict String (List CleanedData)
  all_data [] = []
  all_data ((name, queries) ∷ groups) = (name, data_for name queries) ∷ all_data groups

  refused-append :
      (xs ys : List (String × String)) → any_refused (xs ++ ys) ≡ (any_refused xs || any_refused ys)
  refused-append [] ys = refl
  refused-append ((name, query) ∷ xs) ys = ground (arith, refused-append xs ys)

  group_results-end :
      (grouped : Dict String (List CleanedData)) → group_results request [] grouped ≡ ok grouped
  unfolding group_results
  group_results-end grouped = refl

  group_results-groups :
      (groups : Dict String (List String)) (done : Dict String (List CleanedData))
      → AreDistinct (keys done ++ keys groups)
      → AreAsked groups
      → any_refused (flattened_queries groups) ≡ false
      → group_results request (flattened_queries groups) done ≡ ok (done ++ all_data groups)
  unfolding flattened_queries
  group_results-groups [] done d a r = group_results-end done ∙ ap ok (sym (append-nil done))
  group_results-groups ((name, []) ∷ groups) done d a r = elim a [ ]
  group_results-groups ((name, query ∷ queries) ∷ groups) done d a r =
      let rest = flattened_queries groups in
      let new = AreDistinct-middle (keys done) name (keys groups) d in
      let found = data_of query (request name query) ∷ data_for name queries in
      step_pair name query (with_name name queries ++ rest) done (ground arith)
      ∙ rw (append_to-new name (data_of query (request name query)) done new) (
          group_results-more name queries rest done (data_of query (request name query) ∷ []) new
            (ground arith)
          ∙ (group_results-groups groups (done ++ ((name, found) ∷ []))
                (rw (keys-append, append_assoc) d) a
                (ground (arith, refused-append (with_name name queries) rest))
              ∙ rw append_assoc refl))

  perform_action-nonempty :
      (groups : Dict String (List String))
      → AreAsked groups
      → groups ≢ []
      → perform_action groups request ≡ group_results request (flattened_queries groups) []
  unfolding perform_action flattened_queries
  perform_action-nonempty [] a n = absurd (n refl)
  perform_action-nonempty ((name, []) ∷ groups) a n = elim a [ ]
  perform_action-nonempty ((name, query ∷ queries) ∷ groups) a n = refl

  -- For groups with distinct names, none without a query, the action logs each group once, with the data
  -- of its queries in their order, unless some response came that is not a success: then it raises a
  -- `ValueError` and logs nothing, since what is returned for that query is not a pair.
  pub perform_action-logs :
      (groups : Dict String (List String))
      → AreDistinct (keys groups)
      → AreAsked groups
      → groups ≢ []
      → perform_action groups request ≡ (
          if any_refused (flattened_queries groups)
          then err (Error.value_error "too many values to unpack")
          else ok (all_data groups))
  perform_action-logs groups d a n =
      perform_action-nonempty groups a n
      ∙ elim (Bool-cases (any_refused (flattened_queries groups))) [
        | inl y ↦ rw y (group_results-raises (flattened_queries groups) [] y)
        | inr z ↦ rw z (group_results-groups groups [] d a z)
      ]
