-- ===== src/ReasoningFilter/Tests.antt =====
-- Runs of the filter, and the theorem on it at one.
use ask_sql.Prelude.{[], ◌∷◌, ◌++◌, Text, codes, skip_space, is_space, ◌≡◌, refl}
use ask_sql.Sql.Rewrite.{trim_end}
use ask_sql.ReasoningFilter.{
  leading, passthrough, initial, behind_tag, behind_any, find_tag, from_last_bracket, narrate,
  filter_chunk, filter_all,
}
use ask_sql.ReasoningFilter.Suffix.{joined, filter_all-shown}

-- Both tags are split across chunks.
hidden_run :
    filter_all initial
      (codes "<th" ∷ codes "ink>let me see</thi" ∷ codes "nk>SELECT 1" ∷ codes ";" ∷ [])
    ≡ (codes "SELECT 1;", record { phase = passthrough; carry = [] })
unfolding filter_all filter_chunk narrate from_last_bracket find_tag behind_any behind_tag
    skip_space is_space trim_end
hidden_run = refl

-- Blanks before a split tag use up the length that is waited for, and the narration is shown.
leaked_run :
    (filter_all initial (codes "      <think" ∷ codes ">let me see</think>SELECT 1" ∷ [])).0
    ≡ codes "      <think>let me see</think>SELECT 1"
unfolding filter_all filter_chunk narrate from_last_bracket find_tag behind_any behind_tag
    skip_space is_space trim_end
leaked_run = refl

-- A short reply that begins like a tag is held back to the end.
held_run :
    filter_all initial (codes "<5 rows" ∷ [])
    ≡ ([], record { phase = leading; carry = codes "<5 rows" })
unfolding filter_all filter_chunk narrate from_last_bracket find_tag behind_any behind_tag
    skip_space is_space trim_end
held_run = refl

filter_all-shown_example :
    (hidden : Text) × (joined (codes "<th" ∷ codes "ink>x</think>SELECT 1" ∷ [])
      ≡ hidden
        ++ ((filter_all initial (codes "<th" ∷ codes "ink>x</think>SELECT 1" ∷ [])).0
            ++ (filter_all initial (codes "<th" ∷ codes "ink>x</think>SELECT 1" ∷ [])).1.carry))
filter_all-shown_example = filter_all-shown (codes "<th" ∷ codes "ink>x</think>SELECT 1" ∷ [])
