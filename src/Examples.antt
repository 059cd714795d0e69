-- ===== src/Examples.antt =====
-- The theorems at concrete inputs, and what the examples share.
mod Keys
mod Store
mod Events
mod Collection
mod Ranges
mod Queries
mod Services
mod Processing
mod Timeline
mod EventQuery
mod Watcher
use sloop.Base.{ℕ, ◌≡◌, ◌≢◌, Bool, true, false, not, ◌&&◌, ◌==◌, List, [], ◌∷◌, arith}
use sloop.Base.Bytes.{Bytes, codes}
use sloop.Base.Bytes.Split.{Lacks}
use sloop.Common.{slash}
use sloop.Mock.{Data, MockDb, MockTxn}

abbrev pub lacks? : ℕ → Bytes → Bool
lacks? sep [] = true
lacks? sep (c ∷ cs) = not (c == sep) && lacks? sep cs

pub lacks?-Lacks : (sep : ℕ) (cs : Bytes) → lacks? sep cs ≡ true → Lacks sep cs
lacks?-Lacks sep [] h = tt
lacks?-Lacks sep (c ∷ cs) h = (λ e. ground (arith, h, e), lacks?-Lacks sep cs (ground (arith, h)))

-- 2019-01-01 at 03:00, in hours
abbrev pub partition : Bytes
partition = codes "001546311600"
