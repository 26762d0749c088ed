-- ===== src/Env/Secrets/Collected.antt =====
-- src/env/secrets.ts: the collected names are those that the texts of the config refer to.
use mathlib.Core.Bool.{false≢true}
use apiwright.Core.Json.{Json}
use apiwright.Env.Secrets.Reference.{IsReference}
use apiwright.Env.Secrets.Scan.{scan}
use apiwright.Env.Secrets.Sound.{HasToken-IsReference}
use apiwright.Env.Secrets.{collect_names, secret_pieces, secret_names}
use apiwright.Env.Sets.{
  Member, Within, add_pieces-Within, add_pieces-Tokens, HasToken, HasToken-Member, add_pieces_from,
}
use apiwright.Env.Walks.{HasText, walk-Member, walk_from}
use apiwright.Prelude.{zero, arith, ◌⊎◌, inl, inr, List, [], String}

collect_names-Within : (text : String) (set : List String) → Within set (collect_names text set)
unfolding collect_names
collect_names-Within text set = add_pieces-Within (secret_pieces zero text) set

collect_names-Member :
    (text name : String)
    → IsReference text name
    → (set : List String) → Member name (collect_names text set)
unfolding collect_names
collect_names-Member text name r set =
    let pieces = secret_pieces zero text in
    let found : HasToken name pieces =
      rw r.spelled (scan zero r.before name r.after r.name_chars r.not_empty (omega arith)) in
    HasToken-Member name pieces _ found (add_pieces-Tokens pieces set)

-- The collector misses no name that a text of the config refers to.
pub secret_names-Member :
    (config : Json) (text name : String)
    → HasText text config
    → IsReference text name
    → Member name (secret_names config)
unfolding secret_names
secret_names-Member config text name has refers =
    walk-Member collect_names collect_names-Within text name (collect_names-Member text name refers)
      has []

collect_names_from :
    (name text : String) (set : List String)
    → Member name (collect_names text set)
    → Member name set ⊎ IsReference text name
unfolding collect_names
collect_names_from name text set m = elim (add_pieces_from name (secret_pieces zero text) set m) [
  | inl before ↦ inl before
  | inr found ↦ inr (HasToken-IsReference zero text name found)
]

-- A text of the config that refers to the name.
abbrev pub IsReferred : Json → String → Type 0
IsReferred config name = (text : String) × HasText text config × IsReference text name

pub secret_names_from :
    (config : Json) (name : String) → Member name (secret_names config) → IsReferred config name
unfolding secret_names
secret_names_from config name m =
    elim (walk_from collect_names name (λ text. IsReference text name) (collect_names_from name)
      config [] m) [ inl in_empty ↦ absurd (false≢true in_empty) | inr found ↦ found ]
