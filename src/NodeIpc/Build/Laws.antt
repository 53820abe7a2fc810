-- ===== src/NodeIpc/Build/Laws.antt =====
-- What a template of pool/src/node_ipc.rs says of the node's block.
use mining_pool.Base.{
  ℕ, ◌+◌, ◌^◌, ◌<◌, ◌≡◌, refl, inl, inr, none, some, List, [], ◌∷◌, map, arith, ltb, if◌then◌else◌,
  Option-cases,
}
use mining_pool.Bitcoin.{Bytes, TxIn, Transaction, BlockHeader, BitcoinLib}
use mining_pool.NodeIpc.Template.{RawTemplate}
use mining_pool.NodeIpc.Build.{
  NodeLib, BlockClient, ready, raw_template, checked_template, build_raw_template, fetch_template,
}

abbrev pub sum : List ℕ → ℕ
sum [] = 0
sum (n ∷ ns) = n + sum ns

-- `checked_sum` is `none` just if the sum does not fit an amount, a `u64`.
abbrev pub IsCheckedSum : NodeLib → Type 0
IsCheckedSum node =
    (ns : List ℕ) → node.checked_sum ns ≡ (if ltb (sum ns) (2 ^ 64) then some (sum ns) else none)

module _ (lib : BitcoinLib) (node : NodeLib) where
  checked_template_ready :
      (k : ℕ) (header : BlockHeader) (cb : Transaction) (path : List Bytes) (value : ℕ)
      (inputs : List TxIn) (raw : RawTemplate)
      → checked_template lib node k header cb path value inputs ≡ ready raw
      → (input : TxIn) × (rest : List TxIn) × (inputs ≡ input ∷ rest)
        × (raw ≡ raw_template lib node k header cb path input value)
  unfolding checked_template
  checked_template_ready k header cb path value [] raw h = absurd (ground arith)
  checked_template_ready k header cb path value (input ∷ rest) raw h =
      (input, rest, refl, ground arith)

  -- The amounts have a sum that fits a u64, and the template's value is that sum.
  pub build_raw_template_ready :
      (k : ℕ) (header : BlockHeader) (cb : Transaction) (path : List Bytes) (raw : RawTemplate)
      → IsCheckedSum node
      → build_raw_template lib node k header cb path ≡ ready raw
      → (input : TxIn) × (rest : List TxIn) × (cb.input ≡ input ∷ rest)
        × (sum (map (λ o. o.value) cb.output) < 2 ^ 64)
        × (raw ≡ raw_template lib node k header cb path input (sum (map (λ o. o.value) cb.output)))
  unfolding build_raw_template
  build_raw_template_ready k header cb path raw checked h =
      elim (Option-cases (node.checked_sum (map (λ o. o.value) cb.output))) [
        | inl e ↦ absurd (ground arith)
        | inr (value, e) ↦
            let own = checked (map (λ o. o.value) cb.output) in
            let (input, rest, one, built) =
              checked_template_ready k header cb path value cb.input raw
                (rw (← h, build_raw_template, e) refl) in
            let small : sum (map (λ o. o.value) cb.output) < 2 ^ 64 = ground arith in
            let same : value ≡ sum (map (λ o. o.value) cb.output) = ground arith in
            (input, rest, one, small, rw (← same) built)
      ]

  build_raw_template-template_id :
      (k : ℕ) (header : BlockHeader) (cb : Transaction) (path : List Bytes) (raw : RawTemplate)
      → build_raw_template lib node k header cb path ≡ ready raw
      → raw.new_template.template_id ≡ k
  unfolding build_raw_template raw_template
  build_raw_template-template_id k header cb path raw h =
      elim (Option-cases (node.checked_sum (map (λ o. o.value) cb.output))) [
        | inl e ↦ absurd (ground arith)
        | inr (value, e) ↦
            let (input, rest, one, built) =
              checked_template_ready k header cb path value cb.input raw
                (rw (← h, build_raw_template, e) refl) in
            rw built refl
      ]

  -- A template carries the id that it was fetched with.
  pub fetch_template-template_id :
      (block : BlockClient) (k : ℕ) (raw : RawTemplate)
      → fetch_template lib node block k ≡ ready raw
      → raw.new_template.template_id ≡ k
  unfolding fetch_template
  fetch_template-template_id block k raw h = elim (Option-cases block.get_block_header) [
    | inl e ↦ absurd (ground arith)
    | inr (header_bytes, e1) ↦ elim (Option-cases (node.read_header header_bytes)) [
      | inl e ↦ absurd (ground arith)
      | inr (header, e2) ↦ elim (Option-cases block.get_coinbase_tx) [
        | inl e ↦ absurd (ground arith)
        | inr (cb_bytes, e3) ↦ elim (Option-cases (node.read_tx cb_bytes)) [
          | inl e ↦ absurd (ground arith)
          | inr (cb, e4) ↦ elim (Option-cases block.get_coinbase_merkle_path) [
            | inl e ↦ absurd (ground arith)
            | inr (path, e5) ↦
                build_raw_template-template_id k header cb path raw
                  (rw (← h, fetch_template, e1, e2, e3, e4, e5) refl)
          ]
        ]
      ]
    ]
  ]
