-- ===== src/Requests/Payloads/Peers.antt =====
-- The path that `BeaconAPIgetPeers` of src/etb/interfaces/client_request.py asks.
use text.Mathlib.TextLemmas.{nil-append, cons-append, append_assoc}
use ethereum_testnet_bootstr.Base.{
  ◌≡◌, refl, sym, ap, ◌∙◌, String, ◌<>◌, Option, none, some, List, [], ◌∷◌, ◌++◌, map,
}
use ethereum_testnet_bootstr.Requests.Payloads.{
  parameters, without_last, optional_parameters, peers_path,
}

-- The parameters with an `&` between each two.
unfoldable pub joined_by_and : List String → String
joined_by_and [] = ""
joined_by_and (x ∷ []) = x
joined_by_and (x ∷ y ∷ xs) = x <> ("&" <> joined_by_and (y ∷ xs))

-- A last `&` is removed, whatever stands before it.
without_last-append : (s : String) → without_last (s <> "&") ≡ s
unfolding without_last
without_last-append String.[] = refl
without_last-append (String.◌∷◌ c String.[]) = rw cons-append refl
without_last-append (String.◌∷◌ c (String.◌∷◌ d s)) =
    let step : (t : String)
        → without_last (String.◌∷◌ c (String.◌∷◌ d t))
          ≡ String.◌∷◌ c (without_last (String.◌∷◌ d t)) =
      λ t. refl in
    ap without_last (cons-append c (String.◌∷◌ d s) "&" ∙ ap (String.◌∷◌ c) (cons-append d s "&"))
    ∙ step (s <> "&")
    ∙ ap (λ t. String.◌∷◌ c (without_last t)) (sym (cons-append d s "&"))
    ∙ ap (String.◌∷◌ c) (without_last-append (String.◌∷◌ d s))

-- What is asked for, in the order of the path: the states and then the directions.
abbrev pub keyed : String → Option (List String) → List String
keyed key none = []
keyed key (some xs) = map (λ x. key <> x) xs

abbrev pub asked_for : Option (List String) → Option (List String) → List String
asked_for directions states = keyed "state=" states ++ keyed "direction=" directions

-- Texts with an `&` behind each.
abbrev ended_by_and : List String → String
ended_by_and [] = ""
ended_by_and (x ∷ xs) = x <> ("&" <> ended_by_and xs)

ended_by_and-append :
    (xs ys : List String) → ended_by_and (xs ++ ys) ≡ ended_by_and xs <> ended_by_and ys
ended_by_and-append [] ys = sym (nil-append (ended_by_and ys))
ended_by_and-append (x ∷ xs) ys =
    ap (λ s. x <> ("&" <> s)) (ended_by_and-append xs ys)
    ∙ sym (
        append_assoc x ("&" <> ended_by_and xs) (ended_by_and ys)
        ∙ ap (λ s. x <> s) (append_assoc "&" (ended_by_and xs) (ended_by_and ys)))

parameters-ended_by_and :
    (key : String) (xs : List String) → parameters key xs ≡ ended_by_and (map (λ x. key <> x) xs)
unfolding parameters
parameters-ended_by_and key [] = refl
parameters-ended_by_and key (x ∷ xs) =
    sym (append_assoc key x ("&" <> parameters key xs))
    ∙ ap (λ s. (key <> x) <> ("&" <> s)) (parameters-ended_by_and key xs)

optional-ended_by_and :
    (key : String) (xs : Option (List String))
    → optional_parameters key xs ≡ ended_by_and (keyed key xs)
optional-ended_by_and key none = refl
optional-ended_by_and key (some xs) = parameters-ended_by_and key xs

ended_by_and-joined_by_and :
    (x : String) (xs : List String) → ended_by_and (x ∷ xs) ≡ joined_by_and (x ∷ xs) <> "&"
unfolding joined_by_and
ended_by_and-joined_by_and x [] = refl
ended_by_and-joined_by_and x (y ∷ xs) =
    ap (λ s. x <> ("&" <> s)) (ended_by_and-joined_by_and y xs)
    ∙ sym (
        append_assoc x ("&" <> joined_by_and (y ∷ xs)) "&"
        ∙ ap (λ s. x <> s) (append_assoc "&" (joined_by_and (y ∷ xs)) "&"))

-- The parameters behind the question mark, the last `&` taken away.
unfoldable pub behind_mark : List String → String
behind_mark [] = "/eth/v1/node/peers"
behind_mark (x ∷ xs) = "/eth/v1/node/peers?" <> joined_by_and (x ∷ xs)

without_last-behind_mark :
    (xs : List String)
    → without_last ("/eth/v1/node/peers" <> ("?" <> ended_by_and xs)) ≡ behind_mark xs
unfolding behind_mark
without_last-behind_mark [] = unfold without_last in refl
without_last-behind_mark (x ∷ xs) =
    let joined = joined_by_and (x ∷ xs) in
    let mark : String = "?" in
    ap (λ s. without_last ("/eth/v1/node/peers" <> (mark <> s))) (ended_by_and-joined_by_and x xs)
    ∙ ap without_last (
        sym (
          append_assoc "/eth/v1/node/peers" (mark <> joined) "&"
          ∙ ap (λ s. "/eth/v1/node/peers" <> s) (append_assoc mark joined "&")))
    ∙ without_last-append ("/eth/v1/node/peers" <> (mark <> joined))
    ∙ sym (append_assoc "/eth/v1/node/peers" mark joined)

-- The path that the arguments stand for: where neither is given, the last letter of "peers" is lost.
abbrev pub expected_path : Option (List String) → Option (List String) → String
expected_path none none = "/eth/v1/node/peer"
expected_path directions states = behind_mark (asked_for directions states)

given-behind_mark :
    (directions states : Option (List String))
    → without_last (
        "/eth/v1/node/peers"
        <> ("?"
            <> (optional_parameters "state=" states
                <> optional_parameters "direction=" directions)))
      ≡ behind_mark (asked_for directions states)
given-behind_mark directions states =
    ap (λ s. without_last ("/eth/v1/node/peers" <> ("?" <> s)))
      (ap (λ s. s <> optional_parameters "direction=" directions)
          (optional-ended_by_and "state=" states)
        ∙ ap (λ s. ended_by_and (keyed "state=" states) <> s)
            (optional-ended_by_and "direction=" directions)
        ∙ sym (ended_by_and-append (keyed "state=" states) (keyed "direction=" directions)))
    ∙ without_last-behind_mark (asked_for directions states)

-- Where directions or states are given, the path ends with a question mark and the parameters, the
-- states first, with an `&` between each two, or with "peers" where they are empty lists. Where
-- neither is given, it is "/eth/v1/node/peer".
pub peers_path-expected_path :
    (directions states : Option (List String))
    → peers_path directions states ≡ expected_path directions states
unfolding peers_path
peers_path-expected_path none none = unfold without_last in refl
peers_path-expected_path none (some states) = given-behind_mark none (some states)
peers_path-expected_path (some directions) none = given-behind_mark (some directions) none
peers_path-expected_path (some directions) (some states) =
    given-behind_mark (some directions) (some states)
