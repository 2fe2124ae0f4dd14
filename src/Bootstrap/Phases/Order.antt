-- ===== src/Bootstrap/Phases/Order.antt =====
-- The order in which `bootstrap_testnet` gives its signals (src/testnet_bootstrapper.py).
use ethereum_testnet_bootstr.Base.{
  ℕ, zero, suc, ◌+◌, ◌^◌, ◌≡◌, refl, sym, ap, arith, inl, inr, Bool, true, false, String, List, [],
  ◌∷◌, All, Result, ok, err, ◌==◌, nat_eq, string_eq, if◌then◌else◌, Bool-cases,
}
use ethereum_testnet_bootstr.Base.Runs.{Run, raised, ◌>>◌, act}
use ethereum_testnet_bootstr.Base.Runs.History.{
  Occurs, Tracks, Tracks-bind, Tracks-act, Tracks-last, Tracks-call, Tracks-return, Tracks-keeps,
  Tracks-weaken,
}
use ethereum_testnet_bootstr.Base.Text.{str}
use ethereum_testnet_bootstr.Config.Times.{EtbConfig, set_genesis_time}
use ethereum_testnet_bootstr.Genesis.Execution.{ExecutionGenesisWriter, execution_genesis_writer}
use ethereum_testnet_bootstr.Genesis.Consensus.{consensus_genesis_writer}
use ethereum_testnet_bootstr.Genesis.Files.{
  Accounts, create_geth_genesis, create_besu_genesis, create_nethermind_genesis,
}
use ethereum_testnet_bootstr.Genesis.Files.Values.{Json}
use ethereum_testnet_bootstr.Bootstrap.Phases.{
  File, etb_config_file, etb_config_checkpoint_file, consensus_bootnode_checkpoint_file,
  geth_genesis_file, besu_genesis_file, nether_mind_genesis_file, execution_checkpoint_file,
  block_hash_file, block_number_file, consensus_config_file, consensus_genesis_file,
  consensus_checkpoint_file, Contents, empty, config, json, text, Action, opened, wrote, paired,
  failed_to_pair, slept, copied, Collection, Outside, write_file, with_json, with_text,
  pair_with_retries, copy_deployment, copy_files, prepare, start_execution, start_consensus,
  bootstrap_with,
}

module _ (c : EtbConfig) (accounts : Accounts) (collections : List Collection) where
  -- The genesis files that the writer makes of the config are written.
  abbrev pub HasGenesis : List Action → Type 0
  HasGenesis past =
      (egw : ExecutionGenesisWriter) × (besu : Json) × (nethermind : Json)
      × (execution_genesis_writer c ≡ ok egw)
      × (create_besu_genesis c egw accounts ≡ ok besu)
      × (create_nethermind_genesis c egw accounts ≡ ok nethermind)
      × Occurs (wrote geth_genesis_file (json (create_geth_genesis c egw accounts))) past
      × Occurs (wrote besu_genesis_file (json besu)) past
      × Occurs (wrote nether_mind_genesis_file (json nethermind)) past

  -- The collection has the config and the genesis.
  abbrev pub IsCopied : List Action → Collection → Type 0
  IsCopied past k =
      Occurs (copied consensus_config_file k.collection_dir) past
      × Occurs (copied consensus_genesis_file k.collection_dir) past

  -- What has been done when a signal is given, by opening a checkpoint's file, or clients are paired.
  abbrev pub IsReady : List Action → Action → Type 0
  IsReady past (opened consensus_bootnode_checkpoint_file) =
      Occurs (wrote etb_config_file (config c)) past
      × Occurs (opened etb_config_checkpoint_file) past
  IsReady past (opened execution_checkpoint_file) =
      HasGenesis past × Occurs (opened consensus_bootnode_checkpoint_file) past
  IsReady past (paired _) = Occurs (opened execution_checkpoint_file) past
  IsReady past (opened consensus_checkpoint_file) =
      ((i : ℕ) × Occurs (paired i) past) × All (IsCopied past) collections
  IsReady past _ = Unit

  Tracks-written :
      (past : List Action) (S : List Action → Unit {0} → Type 0) (file : File)
      (made : Result Contents)
      → IsReady past (opened file)
      → ((v : Contents) → made ≡ ok v → S (wrote file v ∷ opened file ∷ past) tt)
      → Tracks IsReady past S (write_file file made)
  Tracks-written past S file made r n = Tracks-act IsReady past S (opened file) _ r (
      Tracks-call IsReady (opened file ∷ past) S made _
        (λ v e. Tracks-last IsReady (opened file ∷ past) S (wrote file v) tt (n v e)))

  -- A file that is written before the rest.
  Tracks-write :
      {A : Type 0} (past : List Action) (S : List Action → A → Type 0) (file : File)
      (made : Result Contents) (next : Run Action A)
      → IsReady past (opened file)
      → ((v : Contents) → made ≡ ok v → Tracks IsReady (wrote file v ∷ opened file ∷ past) S next)
      → Tracks IsReady past S (write_file file made >> next)
  Tracks-write past S file made next r n =
      let Q : List Action → Unit {0} → Type 0 =
        λ past' u. (v : Contents) × (made ≡ ok v) × (past' ≡ wrote file v ∷ opened file ∷ past) in
      Tracks-bind IsReady past Q S (write_file file made) (λ _. next)
        (Tracks-written past Q file made r (λ v e. (v, e, refl)))
        (λ past' u (v, e, same). rw same (n v e))

  with_json-eq-ok :
      (made : Result Json) (v : Contents)
      → with_json made ≡ ok v
      → (j : Json) × (made ≡ ok j) × (v ≡ json j)
  with_json-eq-ok (ok j) v e = (j, refl, cc)
  with_json-eq-ok (err x) v e = cc

  prepare-IsReady :
      (outside : Outside)
      → Tracks IsReady []
          (λ past _. Occurs (opened consensus_bootnode_checkpoint_file) past)
          (prepare c outside)
  unfolding prepare
  prepare-IsReady outside =
      let S : List Action → Unit {0} → Type 0 =
        λ past _. Occurs (opened consensus_bootnode_checkpoint_file) past in
      Tracks-call IsReady [] S _ _ (λ _ _. Tracks-act IsReady [] S _ _ tt (
        Tracks-act IsReady _ S _ _ tt (
          Tracks-write _ S etb_config_checkpoint_file (ok empty) _ tt (λ v _.
            Tracks-written _ S consensus_bootnode_checkpoint_file (ok empty)
              (inr (inr (inl refl)), inr (inl refl)) (λ v' _. inr (inl refl))))))

  start_execution-IsReady :
      (past : List Action)
      → Occurs (opened consensus_bootnode_checkpoint_file) past
      → Tracks IsReady past
          (λ past' _. Occurs (opened execution_checkpoint_file) past')
          (start_execution c accounts)
  unfolding start_execution
  start_execution-IsReady past o =
      let S : List Action → Unit {0} → Type 0 =
        λ past' _. Occurs (opened execution_checkpoint_file) past' in
      Tracks-call IsReady past S (execution_genesis_writer c) _ (λ egw known.
        Tracks-write past S geth_genesis_file (ok (json (create_geth_genesis c egw accounts))) _ tt
          (λ v e.
            Tracks-write _ S besu_genesis_file (with_json (create_besu_genesis c egw accounts)) _ tt
              (λ v' e'.
                Tracks-write _ S nether_mind_genesis_file
                  (with_json (create_nethermind_genesis c egw accounts)) _ tt
                  (λ v'' e''.
                    let (besu, b, vb) = with_json-eq-ok _ v' e' in
                    let (nethermind, n, vn) = with_json-eq-ok _ v'' e'' in
                    Tracks-written _ S execution_checkpoint_file (ok empty)
                      (
                        (
                          egw,
                          besu,
                          nethermind,
                          known,
                          b,
                          n,
                          inr (inr (inr (inr (inl (cc))))),
                          inr (inr (inl (ap (wrote besu_genesis_file) (sym vb)))),
                          inl (ap (wrote nether_mind_genesis_file) (sym vn)),
                        ),
                        inr (inr (inr (inr (inr (inr o))))),
                      )
                      (λ _ _. inr (inl refl))))))

  abbrev HasPaired : List Action → Unit {0} → Type 0
  HasPaired past _ = (i : ℕ) × Occurs (paired i) past

  pair_step :
      (result : Result (Unit {0})) (last : Bool) (attempt : ℕ) (again : Run Action (Unit {0}))
      (past : List Action)
      → Occurs (opened execution_checkpoint_file) past
      → (last ≡ false → Tracks IsReady (failed_to_pair attempt ∷ past) HasPaired again)
      → Tracks IsReady past HasPaired (elim result [
        | ok _ ↦ act (paired attempt)
        | err x ↦ (act (failed_to_pair attempt) >> (if last then ([], raised x) else again))
      ])
  pair_step (ok _) last attempt again past o n =
      Tracks-last IsReady past HasPaired (paired attempt) o (attempt, inl refl)
  pair_step (err x) true attempt again past o n =
      Tracks-act IsReady past HasPaired (failed_to_pair attempt) _ tt tt
  pair_step (err x) false attempt again past o n =
      Tracks-act IsReady past HasPaired (failed_to_pair attempt) _ tt (n refl)

  -- The attempts end with a pairing, or with the exception of the last.
  pair_with_retries-IsReady :
      (pair : ℕ → Result (Unit {0})) (attempts left attempt : ℕ) (past : List Action)
      → attempt + suc left ≡ attempts
      → Occurs (opened execution_checkpoint_file) past
      → Tracks IsReady past HasPaired (pair_with_retries pair attempts (suc left) attempt)
  unfolding pair_with_retries
  pair_with_retries-IsReady pair attempts zero attempt past e o =
      pair_step (pair attempt) (attempt + 1 == attempts) attempt _ past o (λ f. ground (arith, f))
  pair_with_retries-IsReady pair attempts (suc left) attempt past e o =
      pair_step (pair attempt) (attempt + 1 == attempts) attempt _ past o (λ f.
        Tracks-act IsReady (failed_to_pair attempt ∷ past) HasPaired (slept (2 ^ (attempt + 1))) _
          tt
          (pair_with_retries-IsReady pair attempts left (attempt + 1) _ (omega (arith, e))
            (inr (inr o))))

  -- The files for a client's own use are copied in between.
  Tracks-deployment :
      (k : Collection) (a b : Action) (past : List Action) (S : List Action → Unit {0} → Type 0)
      (next : Run Action (Unit {0}))
      → Occurs a past
      → Occurs b past
      → ((past' : List Action) → Occurs a past' → Occurs b past' → Tracks IsReady past' S next)
      → Tracks IsReady past S (copy_deployment k next)
  Tracks-deployment k a b past S next oa ob n = elim (Bool-cases (k.client == "lighthouse")) [
    | inl y ↦ rw y (Tracks-act IsReady past S _ next tt (n _ (inr oa) (inr ob)))
    | inr z ↦ (elim (Bool-cases (k.client == "nimbus")) [
      | inl y ↦
          rw (z, y)
            (Tracks-act IsReady past S _ _ tt
              (Tracks-act IsReady _ S _ next tt (n _ (inr (inr oa)) (inr (inr ob)))))
      | inr y ↦ rw (z, y) (n past oa ob)
    ])
  ]

  copy_files-IsReady :
      (ks : List Collection) (past : List Action)
      → Tracks IsReady past (λ past' _. All (IsCopied past') ks) (copy_files ks)
  unfolding copy_files
  copy_files-IsReady [] past = Tracks-return IsReady past (λ _ _. Unit {0}) tt tt
  copy_files-IsReady (k ∷ ks) past =
      let a = copied consensus_config_file k.collection_dir in
      let b = copied consensus_genesis_file k.collection_dir in
      let S : List Action → Unit {0} → Type 0 = λ past' _. All (IsCopied past') (k ∷ ks) in
      Tracks-act IsReady past S a _ tt (
        Tracks-act IsReady _ S b _ tt (
          Tracks-deployment k a b _ S (copy_files ks) (inr (inl refl)) (inl refl) (λ past' oa ob.
            let T : List Action → Unit {0} → Type 0 = λ p _. All (IsCopied p) ks in
            let U : List Action → Unit {0} → Type 0 = λ p u. Occurs b p × T p u in
            let V : List Action → Unit {0} → Type 0 = λ p u. Occurs a p × U p u in
            Tracks-weaken IsReady past' V S (copy_files ks) (λ p u v. ((v.0, v.1.0), v.1.1))
              (Tracks-keeps IsReady past' a U (copy_files ks) oa (
                Tracks-keeps IsReady past' b T (copy_files ks) ob (copy_files-IsReady ks past'))))))

  start_consensus-IsReady :
      (config_yaml : EtbConfig → Result String) (outside : Outside) (past : List Action)
      → ((i : ℕ) × Occurs (paired i) past)
      → Tracks IsReady past
          (λ past' _. Occurs (opened consensus_checkpoint_file) past')
          (start_consensus config_yaml c collections outside)
  unfolding start_consensus
  start_consensus-IsReady config_yaml outside past (i, o) =
      let S : List Action → Unit {0} → Type 0 =
        λ past' _. Occurs (opened consensus_checkpoint_file) past' in
      let C : List Action → Unit {0} → Type 0 = λ past' _. All (IsCopied past') collections in
      let Q : List Action → Unit {0} → Type 0 = λ past' u. Occurs (paired i) past' × C past' u in
      Tracks-call IsReady past S outside.deployment_block _ (λ block _.
        Tracks-write past S block_hash_file (ok (text block.0)) _ tt (λ v _.
          Tracks-write _ S block_number_file (ok (text (str block.1))) _ tt (λ v' _.
            Tracks-call IsReady _ S (consensus_genesis_writer c) _ (λ _ _.
              Tracks-write _ S consensus_config_file (with_text (config_yaml c)) _ tt (λ _ _.
                Tracks-write _ S consensus_genesis_file _ _ tt (λ _ _.
                  Tracks-bind IsReady _ Q S (copy_files collections) _
                    (Tracks-keeps IsReady _ (paired i) C (copy_files collections)
                      (inr (inr (inr (inr (inr (inr (inr (inr o))))))))
                      (copy_files-IsReady collections _))
                    (λ past' u q.
                      Tracks-write past' S consensus_checkpoint_file (ok empty) _ ((i, q.0), q.1)
                        (λ _ _. Tracks-last IsReady _ S _ tt (inr (inr (inl refl)))))))))))

-- Whatever a bootstrap comes to, and whichever writer makes the consensus config: the consensus bootnodes
-- get their signal when the config with the genesis time is written and its own signal is given; the
-- execution clients when the bootnodes have theirs and the three genesis files that the writer makes of
-- that config are written; clients are paired only behind the signal to the execution clients; the
-- consensus clients get theirs when the pairing has succeeded and each collection has the consensus config
-- and genesis; and a bootstrap that returns has given the last signal.
pub bootstrap_with-IsReady :
    (config_yaml : EtbConfig → Result String) (etb_config : EtbConfig) (now : ℕ)
    (accounts : Accounts) (collections : List Collection) (outside : Outside)
    → Tracks
        (IsReady (set_genesis_time etb_config now) accounts collections)
        []
        (λ past _. Occurs (opened consensus_checkpoint_file) past)
        (bootstrap_with config_yaml etb_config now accounts collections outside)
unfolding bootstrap_with
bootstrap_with-IsReady config_yaml etb_config now accounts collections outside =
    let c = set_genesis_time etb_config now in
    let R = IsReady c accounts collections in
    let S : List Action → Unit {0} → Type 0 =
      λ past _. Occurs (opened consensus_checkpoint_file) past in
    let O : File → List Action → Unit {0} → Type 0 = λ file past _. Occurs (opened file) past in
    Tracks-bind R [] (O consensus_bootnode_checkpoint_file) S (prepare c outside) _
      (prepare-IsReady c accounts collections outside)
      (λ past _ o.
        Tracks-bind R past (O execution_checkpoint_file) S (start_execution c accounts) _
          (start_execution-IsReady c accounts collections past o)
          (λ past' _ o'.
            Tracks-bind R past' (HasPaired c accounts collections) S _ _
              (pair_with_retries-IsReady c accounts collections outside.pair_execution_clients 10 9
                0 past' (omega arith) o')
              (λ past'' _ p.
                start_consensus-IsReady c accounts collections config_yaml outside past'' p)))
