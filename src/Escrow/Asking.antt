-- ===== src/Escrow/Asking.antt =====
-- packages/pearl-escrow/src: what the signer is asked to sign, and what that transaction pays.
use pearl_infra.Prelude.{
  ℕ, ◌+◌, ◌≤◌, String, ◌≡◌, refl, sym, ap, ◌∙◌, inl, inr, some, none, Option, true, ◌===◌, arith,
  Option-cases, Bool-cases, ===_sound,
}
use mathlib.Core.Path.{subst}
use pearl_infra.Prelude.Equality.{string_eq}
use pearl_infra.Prelude.Lists.{head?}
use pearl_infra.Prelude.BigInts.{big_int}
use pearl_infra.Escrow.Types.{
  kind_eq, PearlEscrowOutput, CreatePearlEscrowUnsignedTxInput, PearlEscrowUnsignedTx,
  PearlEscrowSignerPolicyInput, PearlEscrowSignerRequest, returns,
}
use pearl_infra.Escrow.Texts.{is_non_negative_integer}
use pearl_infra.Escrow.UnsignedTx.{
  select_template, TxParts, tx_parts, create_pearl_escrow_unsigned_tx,
}
use pearl_infra.Escrow.SignerRequest.{
  above_cap, pays_to, policy_error, create_pearl_escrow_tx_template_hash, signer_request,
  create_pearl_escrow_signer_request,
}
use pearl_infra.Escrow.Paying.{Result-cases, fee_text, unsigned_tx-Pays}

-- What the signer is asked: a transaction of the action's kind that pays the named destination
-- and takes a fee within the cap.
pub record Policed (input : PearlEscrowSignerPolicyInput) : Type 0 where
  pub fee : ℕ
  pub cap : ℕ
  pub output : PearlEscrowOutput
  pub action_kind : input.unsigned_tx.kind ≡ input.action
  pub same_fee : input.unsigned_tx.fee_grains ≡ input.fee_grains
  pub reads_fee : big_int input.fee_grains ≡ some fee
  pub reads_cap : big_int input.fee_cap_grains ≡ some cap
  pub within : fee ≤ cap
  pub first_output : head? (select_template input.escrow input.action).outputs ≡ some output
  pub destination : output.address ≡ input.destination_address

cap_met :
    (fee cap : Option ℕ)
    → above_cap fee cap ≡ none
    → (f : ℕ) × (c : ℕ) × (fee ≡ some f) × (cap ≡ some c) × (f ≤ c)
cap_met none cap e = absurd (ground (arith, e))
cap_met (some f) none e = absurd (ground (arith, e))
cap_met (some f) (some c) e = (f, c, refl, refl, ground (arith, e))

paid_to :
    (output : Option PearlEscrowOutput) (destination : String)
    → pays_to output destination ≡ true
    → (o : PearlEscrowOutput) × (output ≡ some o) × (o.address ≡ destination)
paid_to none destination e = absurd (ground (arith, e))
paid_to (some o) destination e = (o, refl, ===_sound o.address destination e)

policy-Policed : (input : PearlEscrowSignerPolicyInput) → policy_error input ≡ none → Policed input
unfolding policy_error
policy-Policed input e = elim (Bool-cases (input.unsigned_tx.kind === input.action)) [
  | inr n ↦ absurd (ground (arith, rw (policy_error, n) at e))
  | inl kind ↦ elim (Bool-cases (input.unsigned_tx.fee_grains === input.fee_grains)) [
    | inr n ↦ absurd (ground (arith, rw (policy_error, kind, n) at e))
    | inl fees ↦ elim (Bool-cases (is_non_negative_integer input.fee_grains)) [
      | inr n ↦ absurd (ground (arith, rw (policy_error, kind, fees, n) at e))
      | inl a ↦ elim (Bool-cases (is_non_negative_integer input.fee_cap_grains)) [
        | inr n ↦ absurd (ground (arith, rw (policy_error, kind, fees, a, n) at e))
        | inl b ↦
            elim (Option-cases
              (above_cap (big_int input.fee_grains) (big_int input.fee_cap_grains))) [
                | inr (error, n) ↦
                    absurd (ground (arith, rw (policy_error, kind, fees, a, b, n) at e))
                | inl c ↦
                    elim (Bool-cases (
                      pays_to (head? (select_template input.escrow input.action).outputs)
                        input.destination_address)) [
                          | inr n ↦
                              absurd
                                (ground (arith, rw (policy_error, kind, fees, a, b, c, n) at e))
                          | inl d ↦
                              let (fee, cap, f, m, under) =
                                cap_met (big_int input.fee_grains) (big_int input.fee_cap_grains)
                                  c in
                              let (output, o, address) =
                                paid_to (head? (select_template input.escrow input.action).outputs)
                                  input.destination_address d in
                              record {
                                fee = fee;
                                cap = cap;
                                output = output;
                                action_kind = ===_sound input.unsigned_tx.kind input.action kind;
                                same_fee =
                                    ===_sound input.unsigned_tx.fee_grains input.fee_grains fees;
                                reads_fee = f;
                                reads_cap = m;
                                within = under;
                                first_output = o;
                                destination = address;
                              }
                        ]
              ]
      ]
    ]
  ]
]

requested :
    (sha256_json : PearlEscrowUnsignedTx → String) (input : PearlEscrowSignerPolicyInput)
    (now : String) (r : PearlEscrowSignerRequest)
    → create_pearl_escrow_signer_request sha256_json input now ≡ returns r
    → (policy_error input ≡ none)
      × ((hash : String) × (signer_request sha256_json input now hash ≡ r))
unfolding create_pearl_escrow_signer_request
requested sha256_json input now r e = elim (Option-cases (policy_error input)) [
  | inr (error, n) ↦ absurd (ground (arith, rw (create_pearl_escrow_signer_request, n) at e))
  | inl p ↦
      elim (Result-cases (create_pearl_escrow_tx_template_hash sha256_json input.unsigned_tx)) [
        | inl (error, n) ↦
            absurd (ground (arith, rw (create_pearl_escrow_signer_request, p, n) at e))
        | inr (hash, h) ↦
            let same : returns (signer_request sha256_json input now hash) ≡ returns r =
              rw (create_pearl_escrow_signer_request, p, h) at e in
            (p, (hash, ground (arith, same)))
      ]
]

module _ (number_of : String → Option ℕ) (default_sequence : ℕ)
    (to_output_script : String → String → Option String) (build_tx : TxParts → Option String) where
  -- The transaction of a request: its output and its fee are the whole escrow, the fee is within
  -- the cap, and the output's script is that of the destination.
  pub record Asked (created : CreatePearlEscrowUnsignedTxInput) (r : PearlEscrowSignerRequest)
      : Type 0 where
    pub total : ℕ
    pub fee : ℕ
    pub cap : ℕ
    pub amount : ℕ
    pub script : String
    pub at : String × ℕ
    pub reads_total : big_int created.escrow.expected_amount_grains ≡ some total
    pub reads_fee : big_int r.fee_grains ≡ some fee
    pub reads_cap : big_int r.fee_cap_grains ≡ some cap
    pub within : fee ≤ cap
    pub adds_up : amount + fee ≡ total
    pub pays_destination :
        to_output_script r.destination_address created.escrow.network ≡ some script
    pub built :
        build_tx
          (tx_parts number_of default_sequence to_output_script build_tx created at script amount)
        ≡ some r.unsigned_tx_hex

  -- Where the signer is asked for a transaction that was created for the same escrow, that
  -- transaction pays the destination of the request all of the escrow but a fee, and the fee is the
  -- one of the request, within its cap.
  pub request_pays_destination :
      (sha256_json : PearlEscrowUnsignedTx → String) (created : CreatePearlEscrowUnsignedTxInput)
      (input : PearlEscrowSignerPolicyInput) (now : String) (r : PearlEscrowSignerRequest)
      → input.escrow ≡ created.escrow
      → create_pearl_escrow_unsigned_tx number_of default_sequence to_output_script build_tx created
        ≡ returns input.unsigned_tx
      → create_pearl_escrow_signer_request sha256_json input now ≡ returns r
      → Asked created r
  request_pays_destination sha256_json created input now r same_escrow c e =
      let (p, (hash, made)) = requested sha256_json input now r e in
      let pays =
        unsigned_tx-Pays number_of default_sequence to_output_script build_tx created
          input.unsigned_tx c in
      let policed = policy-Policed input p in
      let fee_same : input.fee_grains ≡ fee_text created = sym policed.same_fee ∙ pays.same_fee in
      let reads : big_int input.fee_grains ≡ some pays.fee = ap big_int fee_same ∙ pays.reads_fee in
      let kinds : created.kind ≡ input.action = sym pays.same_kind ∙ policed.action_kind in
      let templates : select_template created.escrow created.kind
          ≡ select_template input.escrow input.action =
        ap (select_template created.escrow) kinds
        ∙ ap (λ escrow. select_template escrow input.action) (sym same_escrow) in
      let first : some pays.output ≡ some policed.output =
        sym pays.first_output ∙ (ap (λ t. head? t.outputs) templates ∙ policed.first_output) in
      let outputs : pays.output ≡ policed.output = ground (arith, first) in
      let address : pays.output.address ≡ input.destination_address =
        ap (λ o. o.address) outputs ∙ policed.destination in
      subst (Asked created) made (record {
        total = pays.total;
        fee = pays.fee;
        cap = policed.cap;
        amount = pays.amount;
        script = pays.script;
        at = pays.at;
        reads_total = pays.reads_total;
        reads_fee = reads;
        reads_cap = policed.reads_cap;
        within = ground (arith, policed.within, policed.reads_fee, reads);
        adds_up = pays.adds_up;
        pays_destination =
            subst (λ d. to_output_script d created.escrow.network ≡ some pays.script) address
              pays.output_script;
        built = pays.built;
      })
