-- ===== src/Sankey.antt =====
-- frontend/src/hooks/useSankeyData.ts: the fetches of the flow view. A fetch has a number, and its
-- answer arrives later, as an action of its own; the data and the errors are parameters.
pub mod Latest
use secan.Base.{
  ℕ, zero, suc, ◌+◌, ◌==◌, String, Option, none, some, List, [], ◌∷◌, Bool, true, false,
  if◌then◌else◌, ltb, length, join,
}

module _ (Data Error : Type 0) where
  pub record SankeyState : Type 0 where
    pub data_of : Option Data
    pub loading : Bool
    pub error : Option Error
    pub fetch_id : ℕ

  pub data FetchAction : Type 0 where
    fetch : FetchAction
    resolve : ℕ → Data → FetchAction
    fail : ℕ → Error → FetchAction

module _ {Data Error : Type 0} where
  abbrev pub initial_fetch : SankeyState Data Error
  initial_fetch = record { data_of = none; loading = false; error = none; fetch_id = 0 }

  -- The part of `fetchData` before its `await`.
  unfoldable pub start_fetch : SankeyState Data Error → SankeyState Data Error
  start_fetch s = record s { fetch_id = suc s.fetch_id; loading = true; error = none }

  -- The two parts after it.
  pub fetch_resolved : ℕ → Data → SankeyState Data Error → SankeyState Data Error
  fetch_resolved my_id result s =
      if s.fetch_id == my_id then record s { data_of = some result; loading = false } else s

  pub fetch_failed : ℕ → Error → SankeyState Data Error → SankeyState Data Error
  fetch_failed my_id err s =
      if s.fetch_id == my_id then record s { error = some err; loading = false } else s

  pub perform : FetchAction Data Error → SankeyState Data Error → SankeyState Data Error
  perform fetch s = start_fetch s
  perform (resolve id result) s = fetch_resolved id result s
  perform (fail id err) s = fetch_failed id err s

  pub run : List (FetchAction Data Error) → SankeyState Data Error → SankeyState Data Error
  run [] s = s
  run (a ∷ rest) s = run rest (perform a s)
