-- ===== src/Indexer/Tests.antt =====
-- The theorems about the sink and the poller on a small chain, whose hashes are texts as long as
-- the height.
use Prim.Native.String.{String}
use pearl_infra.Prelude.{ℕ, zero, suc, ◌≡◌, refl, inl, Option, none, some, List, [], ◌∷◌, arith}
use pearl_infra.Indexer.Blocks.{PearlBlockSummary, poll_once, poll_heights}
use pearl_infra.Indexer.Sink.{
  BlockRow, BlockStore, find_block, canonical_block, save_block, save_new_block, check_parent,
  store_block, is_indexed,
}
use pearl_infra.Indexer.Linked.{IsLinked, save-IsLinked}
use pearl_infra.Indexer.Polls.{Serves, IsSynced, Poll, run_polls, polls_keep_chain}

copies : ℕ → String
copies zero = ""
copies (suc n) = String.◌∷◌ "a" (copies n)

text_length : String → ℕ
text_length String.[] = 0
text_length (String.◌∷◌ c s) = suc (text_length s)

text_length-copies : (n : ℕ) → text_length (copies n) ≡ n
unfolding text_length copies
text_length-copies zero = refl
text_length-copies (suc n) = omega (arith, text_length-copies n)

abbrev parent_hash : ℕ → Option String
parent_hash zero = none
parent_hash (suc n) = some (copies n)

abbrev block_at : ℕ → PearlBlockSummary
block_at h = record {
  hash = copies h;
  height = h;
  previous_hash = parent_hash h;
  txids = [];
  inputs = [];
  outputs = [];
  timestamp = some 0;
}

abbrev empty_store : BlockStore
empty_store = record { rows = []; next_height = none }

empty_store-IsLinked : (from : ℕ) → IsLinked from empty_store
unfolding canonical_block
empty_store-IsLinked from = record {
  starts = omega arith;
  below = λ h le. refl;
  above = λ h le. refl;
  unbroken = λ h le lt. absurd (omega arith);
  linked = λ h child parent e f. ground arith;
}

save-IsLinked_example : IsLinked 3 (save_block 5 (block_at 3) empty_store).0
save-IsLinked_example =
    save-IsLinked 3 5 (block_at 3) empty_store (λ row e. no_row row e) (empty_store-IsLinked 3)
      (inl refl)
  where
    no_row : (row : BlockRow) → find_block (copies 3) [] ≡ some row → row.height ≡ 3
    no_row row e = unfold find_block in ground arith

abbrev polls : List Poll
polls =
    record { tip = 2; block_at = block_at; now = λ block. 7 }
    ∷ record { tip = 4; block_at = block_at; now = λ block. 9 }
    ∷ []

block_at-Serves : Serves text_length block_at
block_at-Serves = record { at_height = λ h. refl; named = text_length-copies }

polls_keep_chain_example :
    IsSynced text_length 0 (run_polls polls 0 empty_store).0 (run_polls polls 0 empty_store).1
polls_keep_chain_example =
    polls_keep_chain text_length 0 polls 0 empty_store (block_at-Serves, (block_at-Serves, tt))
      (record { chain = empty_store-IsLinked 0; heights_agree = tt; reached = refl })

polls_reach_tip : (run_polls polls 0 empty_store).0 ≡ 5
unfolding run_polls poll_once poll_heights save_block save_new_block check_parent store_block
    find_block is_indexed canonical_block copies
polls_reach_tip = refl
