-- ===== src/Requests/Attempts.antt =====
-- The retries of src/etb/interfaces/client_request.py.
use mathlib.Core.List.{append-nil, append_assoc}
use mathlib.Core.Path.{subst}
use ethereum_testnet_bootstr.Base.{
  ℕ, zero, suc, ◌+◌, ◌-◌, ◌≤◌, ◌<◌, ◌≡◌, ◌⊎◌, inl, inr, refl, ap, ◌∙◌, List, [], ◌∷◌, ◌++◌, Eq, ok,
  ltb, if◌then◌else◌, arith,
}
use ethereum_testnet_bootstr.Base.Dict.{Dict, keys}
use ethereum_testnet_bootstr.Base.Distinct.{
  AreDistinct, AreDistinct-middle, insert-absent, keys-append,
}
use ethereum_testnet_bootstr.Requests.{
  Outcome, response, exception, nothing, attempts, RpcResponse, read_rpc, execution_perform_request,
  submit_all, perform_batched_request,
}

module _ {R X : Type 0} where
  -- The attempt is one that ends the loop at once.
  abbrev pub IsAnswer : Outcome R X → Type 0
  IsAnswer (exception _) = ⊥
  IsAnswer _ = Unit

  -- The outcome is that of attempt `k`, after a sleep for each attempt before it; all of those ended
  -- with exceptions, and `k` has an answer or is the last.
  pub EndsWith : (ℕ → Outcome R X) → ℕ → ℕ → Outcome R X × ℕ → Type 0
  EndsWith send i left outcome =
      (k : ℕ) × (k ≤ left)
      × (outcome ≡ (send (i + k), k))
      × ((j : ℕ) → j < k → (x : X) × (send (i + j) ≡ exception x))
      × ((k ≡ left) ⊎ IsAnswer (send (i + k)))

  Outcome-cases : (o : Outcome R X) → ((x : X) × (o ≡ exception x)) ⊎ IsAnswer o
  Outcome-cases (response r) = inr tt
  Outcome-cases (exception x) = inl (x, refl)
  Outcome-cases nothing = inr tt

  attempts-answer :
      (send : ℕ → Outcome R X) (unknown o : Outcome R X) (max_retries left i : ℕ)
      → send i ≡ o
      → IsAnswer o
      → attempts send unknown max_retries (suc left) i ≡ (o, 0)
  unfolding attempts
  attempts-answer send unknown (response r) max_retries left i p a = rw (attempts, p) refl
  attempts-answer send unknown nothing max_retries left i p a = rw (attempts, p) refl
  attempts-answer send unknown (exception x) max_retries left i p a = elim a [ ]

  attempts-exception :
      (send : ℕ → Outcome R X) (unknown : Outcome R X) (x : X) (max_retries left i : ℕ)
      → send i ≡ exception x
      → let later = attempts send unknown max_retries left (i + 1) in
        attempts send unknown max_retries (suc left) i
        ≡ (if ltb i (max_retries - 1) then (later.0, later.1 + 1) else (exception x, 0))
  unfolding attempts
  attempts-exception send unknown x max_retries left i p = rw (attempts, p) refl

  earlier_from :
      (send : ℕ → Outcome R X) (i k : ℕ) (x : X)
      → send i ≡ exception x
      → ((j : ℕ) → j < k → (y : X) × (send (i + 1 + j) ≡ exception y))
      → (j : ℕ) → j < suc k
      → (y : X) × (send (i + j) ≡ exception y)
  earlier_from send i k x p earlier zero h = (x, ground (arith, p))
  earlier_from send i k x p earlier (suc j) h =
      let (y, q) = earlier j (omega (arith, h)) in (y, ground (arith, q))

  IsAnswer-at : (send : ℕ → Outcome R X) (a b : ℕ) → a ≡ b → IsAnswer (send a) → IsAnswer (send b)
  IsAnswer-at send a b p = subst (λ n. IsAnswer (send n)) p

  attempts-EndsWith :
      (send : ℕ → Outcome R X) (unknown : Outcome R X) (max_retries left i : ℕ)
      → i + suc left ≡ max_retries
      → EndsWith send i left (attempts send unknown max_retries (suc left) i)
  unfolding EndsWith
  attempts-EndsWith send unknown max_retries zero i h = elim (Outcome-cases (send i)) [
    | inl (x, p) ↦
        let last = attempts-exception send unknown x max_retries 0 i p in
        (0, ground arith, ground (arith, last, p, h), λ j q. ground arith, inl refl)
    | inr answer ↦
        let once = attempts-answer send unknown (send i) max_retries 0 i refl answer in
        (0, ground arith, ground (arith, once), λ j q. ground arith, inl refl)
  ]
  attempts-EndsWith send unknown max_retries (suc left) i h = elim (Outcome-cases (send i)) [
    | inl (x, p) ↦
        let (k, below, same, earlier, end) =
          attempts-EndsWith send unknown max_retries left (i + 1) (omega (arith, h)) in
        let again = attempts-exception send unknown x max_retries (suc left) i p in
        (
          suc k,
          ground (arith, below),
          ground (arith, again, same, h),
          earlier_from send i k x p earlier,
          elim end [
            | inl p ↦ inl (ap suc p)
            | inr q ↦ inr (IsAnswer-at send (i + 1 + k) (i + suc k) (omega arith) q)
          ],
        )
    | inr answer ↦
        let once = attempts-answer send unknown (send i) max_retries (suc left) i refl answer in
        (
          0,
          ground arith,
          ground (arith, once),
          λ j q. ground arith,
          inr (IsAnswer-at send i (i + 0) (omega arith) answer),
        )
  ]

  -- A JSON-RPC request that may make at least one attempt returns what one of its attempts gives, an
  -- error in a body being an exception. All before it ended with exceptions, each followed by one
  -- sleep, and it has an answer or is the last that is allowed: the code's own error is not returned.
  pub execution_perform_request-EndsWith :
      (unknown_error : X) (send : ℕ → Outcome (RpcResponse R X) X) (left : ℕ)
      → EndsWith
          (λ i. read_rpc (send i))
          0
          left
          (execution_perform_request unknown_error send (suc left))
  unfolding execution_perform_request
  execution_perform_request-EndsWith unknown_error send left =
      attempts-EndsWith (λ i. read_rpc (send i)) (exception unknown_error) (suc left) left 0
        (omega arith)

module _ {C O : Type 0} ⦃ec : Eq C⦄ (perform_request : C → O) where
  abbrev pub asked : List C → Dict C O
  asked [] = []
  asked (c ∷ cs) = (c, perform_request c) ∷ asked cs

  submit_all-asked :
      (cs : List C) (results : Dict C O)
      → AreDistinct (keys results ++ cs)
      → submit_all perform_request cs results ≡ results ++ asked cs
  unfolding submit_all
  submit_all-asked [] results h = ground (arith, append-nil results)
  submit_all-asked (c ∷ cs) results h =
      let absent = AreDistinct-middle (keys results) c cs h in
      rw (insert-absent c (perform_request c) results absent) (
        submit_all-asked cs (results ++ ((c, perform_request c) ∷ []))
          (rw (keys-append, append_assoc) h)
        ∙ append_assoc results ((c, perform_request c) ∷ []) (asked cs))

  -- A batch asks each of its distinct clients once, in their order.
  pub perform_batched_request-asked :
      (c : C) (cs : List C)
      → AreDistinct (c ∷ cs)
      → perform_batched_request perform_request (c ∷ cs) ≡ ok (asked (c ∷ cs))
  unfolding perform_batched_request
  perform_batched_request-asked c cs h = ap ok (submit_all-asked (c ∷ cs) [] h)
