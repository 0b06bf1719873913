-- ===== src/Tests/Fragments.antt =====
-- Reassembly at concrete fragments.
use longterm.Base.{ℕ, ◌≡◌, refl, List, [], ◌∷◌, true, false, arith, ◌==◌, if◌then◌else◌, All}
use longterm.Base.Words.{Bytes}
use longterm.Mosh.Fragment.{fragment, no_assembly, deliver, send_fragments}
use longterm.Mosh.Fragment.Safety.{IsSent, IsPayload, deliver_sent}
use longterm.Mosh.Fragment.Send.{deliver-send_fragments}

-- Two payloads, of two parts and of one.
abbrev two_payloads : ℕ → List Bytes
two_payloads id =
    if id == 1 then (10 ∷ []) ∷ (11 ∷ []) ∷ [] else if id == 2 then (20 ∷ []) ∷ [] else []

-- The second part comes first, the other payload in between, and a part is repeated.
abbrev shuffled : List Bytes
shuffled =
    fragment 1 1 true (11 ∷ [])
    ∷ fragment 2 0 true (20 ∷ [])
    ∷ fragment 1 1 true (11 ∷ [])
    ∷ fragment 1 0 false (10 ∷ [])
    ∷ []

late : IsSent two_payloads (fragment 1 1 true (11 ∷ []))
late = record {
  id = 1;
  number = 1;
  part = 11 ∷ [];
  id_fits = omega arith;
  allowed = omega arith;
  found = refl;
  written = refl;
}

alone : IsSent two_payloads (fragment 2 0 true (20 ∷ []))
alone = record {
  id = 2;
  number = 0;
  part = 20 ∷ [];
  id_fits = omega arith;
  allowed = omega arith;
  found = refl;
  written = refl;
}

early : IsSent two_payloads (fragment 1 0 false (10 ∷ []))
early = record {
  id = 1;
  number = 0;
  part = 10 ∷ [];
  id_fits = omega arith;
  allowed = omega arith;
  found = refl;
  written = refl;
}

deliver_sent_example : All (IsPayload two_payloads) (deliver no_assembly shuffled)
deliver_sent_example = deliver_sent two_payloads shuffled (late, (alone, (late, (early, tt))))

deliver-send_fragments_example :
    deliver no_assembly (send_fragments 7 (1 ∷ 2 ∷ 3 ∷ [])) ≡ (1 ∷ 2 ∷ 3 ∷ []) ∷ []
deliver-send_fragments_example =
    deliver-send_fragments 7 no_assembly (1 ∷ 2 ∷ 3 ∷ []) (omega arith) refl (omega arith)
