-- ===== src/Governance/Family.antt =====
-- `_normalize_text` and `_decision_family` of app.py. `str.lower` and `isoformat` of a time are given.
use Prim.Native.String.{◌++◌}
use sharpe_nova_os.Prelude.{ℕ, Option, String, ◌==◌, if◌then◌else◌, get_or}
use sharpe_nova_os.Text.{strip}
use sharpe_nova_os.Text.Words.{split_spaces, nonempty, join_spaced}

pub record TextHost : Type 0 where
  pub lower : String → String
  pub isoformat : ℕ → String

module _ (h : TextHost) where
  -- `_normalize_text`
  unfoldable pub normalize_text : Option String → String
  normalize_text value = join_spaced (nonempty (split_spaces (h.lower (strip (get_or "" value)))))

  abbrev or_unknown : String → String → String
  or_unknown unknown s = if s == "" then unknown else s

  unfoldable pub decision_family : Option String → Option String → String
  decision_family intent asset =
      or_unknown "unknown_intent" (normalize_text intent)
      ++ ":"
      ++ or_unknown "unknown_asset" (normalize_text asset)
