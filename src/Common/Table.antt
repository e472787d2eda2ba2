-- ===== src/Common/Table.antt =====
-- Go's `map[string]string`, as the function from a key to what is stored under it. The program
-- never iterates over such a map, so an order of the entries is not modelled.
use Prim.Native.String.{String}
use mathlib.Core.Option.{Option, none, some}
use text.Mathlib.Text.{◌==◌}
use package.userd.Common.Tests.{if◌then◌else◌}

abbrev pub Table : Type 0
Table = String → Option String

-- make(map[string]string)
abbrev pub empty : Table
empty k = none

-- m[k] = v
abbrev pub insert : String → String → Table → Table
insert k v m j = if k == j then some v else m j

-- delete(m, k)
abbrev pub erase : String → Table → Table
erase k m j = if k == j then none else m j
