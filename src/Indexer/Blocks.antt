-- ===== src/Indexer/Blocks.antt =====
-- services/pearl-indexer/src/block-poller.ts: a block as the indexer reads it, what storing it
-- comes to, and the poller.
use pearl_infra.Prelude.{
  ◌≡◌, ◌⊎◌, inl, inr, refl, ℕ, zero, suc, ◌+◌, ◌-◌, String, Option, none, some, List, Bool, true,
  false, ltb, if◌then◌else◌,
}
use pearl_infra.Prelude.Dates.{Timestamp}

pub record ScriptPubKey : Type 0 where
  pub hex : String
  pub script_type : Option String
  pub address : Option String

pub record PearlBlockOutput : Type 0 where
  pub txid : String
  pub vout : ℕ
  pub amount_grains : String
  pub script_pub_key : ScriptPubKey

pub record PearlBlockInput : Type 0 where
  pub txid : String
  pub vin : ℕ
  pub spent_outpoint : Option String
  pub sequence : Option ℕ

pub record PearlBlockSummary : Type 0 where
  pub hash : String
  pub height : ℕ
  pub previous_hash : Option String
  pub txids : List String
  pub inputs : List PearlBlockInput
  pub outputs : List PearlBlockOutput
  pub timestamp : Timestamp

pub data SaveBlockResult : Type 0 where
  saved duplicate : SaveBlockResult
  -- detachedFromHeight, indexedHash, newPreviousHash
  reorg : ℕ → String → Option String → SaveBlockResult

pub result_cases :
    (r : SaveBlockResult)
    → (r ≡ saved)
      ⊎ (r ≡ duplicate)
      ⊎ ((h : ℕ) × (hash : String) × (previous : Option String) × (r ≡ reorg h hash previous))
result_cases saved = inl refl
result_cases duplicate = inr (inl refl)
result_cases (reorg h hash previous) = inr (inr (h, hash, previous, refl))

pub record PollerResult : Type 0 where
  pub from_height : ℕ
  -- one less than this is `toHeight`, which is -1 where the first block is refused at height 0
  pub to_height_end : ℕ
  pub indexed_blocks : ℕ
  pub next_height : ℕ
  pub reorg_detected : Bool
  pub reorg_detached_from_height : Option ℕ

-- The chain that the node serves, and a sink with its state.
module _ {ℓ} {S : Type ℓ} (block_at : ℕ → PearlBlockSummary)
    (save_block : PearlBlockSummary → S → S × SaveBlockResult) where
  -- What follows a `saveBlock` that found a reorg.
  abbrev reorg_result : ℕ → ℕ → ℕ → ℕ → PollerResult
  reorg_result from_height height indexed detached_from = record {
    from_height = from_height;
    to_height_end = height;
    indexed_blocks = indexed;
    next_height = detached_from;
    reorg_detected = true;
    reorg_detached_from_height = some detached_from;
  }

  -- The `for` loop, with the number of heights that are left.
  unfoldable pub poll_heights : ℕ → ℕ → ℕ → ℕ → S → S × PollerResult
  poll_heights zero from_height height indexed s = (
    s,
    record {
      from_height = from_height;
      to_height_end = height;
      indexed_blocks = indexed;
      next_height = height;
      reorg_detected = false;
      reorg_detached_from_height = none;
    },
  )
  poll_heights (suc left) from_height height indexed s =
      let done = save_block (block_at height) s in
      elim done.1 [
        | reorg detached_from indexed_hash previous ↦
            (done.0, reorg_result from_height height indexed detached_from)
        | saved ↦ poll_heights left from_height (height + 1) (indexed + 1) done.0
        | duplicate ↦ poll_heights left from_height (height + 1) indexed done.0
      ]

  -- `pollOnce`, with the tip that `getBlockCount` returned.
  unfoldable pub poll_once : ℕ → ℕ → S → S × PollerResult
  unfolding poll_heights
  poll_once tip_height next_height s =
      if ltb tip_height next_height
      then (
        s,
        record {
          from_height = next_height;
          to_height_end = tip_height + 1;
          indexed_blocks = 0;
          next_height = next_height;
          reorg_detected = false;
          reorg_detached_from_height = none;
        },
      )
      else poll_heights (tip_height + 1 - next_height) next_height next_height 0 s
