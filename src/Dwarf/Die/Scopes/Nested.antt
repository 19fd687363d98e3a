-- ===== src/Dwarf/Die/Scopes/Nested.antt =====
-- The inline stack: what the loop of `inline_stack_at_address` finds, and when it ends.
use gsdb.Common.{ℕ, ◌≡◌}
use gsdb.Common.{Bool, true, false, List, [], ◌∷◌, ◌++◌, All}
use gsdb.Common.{Outcome, ok}
use gsdb.Dwarf.LineTable.{FileAddr}
use gsdb.Dwarf.Die.{Info, CompileUnit, Die}
use gsdb.Dwarf.Die.Children.{children}
use gsdb.Dwarf.Die.Scopes.{is_inlined_around}

-- The first entry that passes a test, with what stands around it.
pub record First (test : Die → Outcome Bool) (ds : List Die) (c : Die) : Type 0 where
  pub before : List Die
  pub after : List Die
  pub split : ds ≡ before ++ (c ∷ after)
  pub failing : All (λ d. test d ≡ ok false) before
  pub passing : test c ≡ ok true

module _ (image : List ℕ) (info : Info) (units : List CompileUnit) (a : FileAddr) where
  -- Functions inlined into one another around an address: each is the first child of the one
  -- before it that is an inlined function around the address, and the last has no such child.
  pub data InlineChain : Die → List Die → Type 0 where
    last :
        {d : Die} (ds : List Die)
        → children image info units d ≡ ok ds
        → All (λ c. is_inlined_around image info units a c ≡ ok false) ds
        → InlineChain d (d ∷ [])
    deeper :
        {d : Die} {stack : List Die} (ds : List Die) (c : Die)
        → children image info units d ≡ ok ds
        → First (is_inlined_around image info units a) ds c
        → InlineChain c stack
        → InlineChain d (d ∷ stack)
