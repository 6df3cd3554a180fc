-- ===== src/Examples/Buffers.antt =====
-- Two threads that use a workspace; the memory runs out for the first, and the budget for the third.
use vapoursynth_nssfactory.Base.{none, some, List, [], ◌∷◌}
use vapoursynth_nssfactory.Resources.{ResourceSnapshot, new_budget}
use vapoursynth_nssfactory.Workspace.{Workspace, workspace, Call, after_calls}
use vapoursynth_nssfactory.Workspace.Outcome.{Outcome}

abbrev roomy : ResourceSnapshot
roomy = new_budget 10000

abbrev five_calls : List Call
five_calls =
    record { thread = 1; floats = 100; budget = roomy; address = some 4096 }
    ∷ record { thread = 2; floats = 8; budget = roomy; address = some 8192 }
    ∷ record { thread = 1; floats = 200; budget = roomy; address = none }
    ∷ record { thread = 3; floats = 300; budget = new_budget 1000; address = some 32768 }
    ∷ record { thread = 2; floats = 300; budget = roomy; address = some 16384 }
    ∷ []

abbrev used : Workspace
used = after_calls five_calls (workspace (some roomy))
