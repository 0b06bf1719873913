-- ===== src/Tests/Receiving.antt =====
-- A client with the server's first screen receives its first changes.
use longterm.Base.{ℕ, zero, suc, refl, inl, inr, [], ◌∷◌, arith}
use longterm.Base.Assoc.{find, insert, contains}
use longterm.Mosh.Client.{Client}
use longterm.Mosh.Receiver.{steps_to, apply_diff, throw_away_until, receive_instruction}
use longterm.Mosh.Receiver.Steps.{Way, Rooted, whole, steps_to-Way}
use longterm.Mosh.Receiver.Insert.{Rooted-insert}
use longterm.Mosh.Receiver.Screen.{IsReceiver, Shows, apply_diff-Sound, apply_diff-IsReceiver}
use longterm.Base.Words.{Bytes}
use longterm.Mosh.Receiver.ThrowAway.{throw_away_until-IsReceiver}
use longterm.Mosh.Receiver.Received.{BothValid, receive_instruction-BothValid}
use longterm.Mosh.Instruction.{Instruction, write_instruction}
use longterm.Mosh.Restart.Resume.{first_screen}
use longterm.Tests.Sending.{outside, env, client, client-IsValid}

abbrev pub fresh : Client
fresh = record client {
  receiver = record client.receiver { ack_num = 0; states = (0, first_screen) ∷ []; latest = 0 };
}

none_yet : Rooted []
unfolding find
none_yet = record { numbered = λ f. cc; parents = λ f. cc }

Rooted-first : Rooted ((0, first_screen) ∷ [])
unfolding insert
Rooted-first = Rooted-insert {m = []} 0 first_screen refl (inl refl) none_yet

pub fresh-IsReceiver : IsReceiver fresh
unfolding contains
fresh-IsReceiver = record {
  rooted = Rooted-first;
  ordered = (omega arith, tt);
  there = refl;
  newest = λ k h. ground (arith, h);
}

fresh-Shows : Shows outside fresh
unfolding find
fresh-Shows = record {
  before = ([], 80, 24) ∷ [];
  started = inr refl;
  way = whole first_screen refl refl;
}

-- HostMessage { Instruction { HostBytes { "hi" } } }
abbrev hello : Bytes
hello = 10 ∷ 6 ∷ 18 ∷ 4 ∷ 34 ∷ 2 ∷ 104 ∷ 105 ∷ []

apply_diff-Sound_example :
    IsReceiver (apply_diff outside env 0 1 hello fresh)
    × Shows outside (apply_diff outside env 0 1 hello fresh)
apply_diff-Sound_example =
    apply_diff-Sound outside env 0 1 hello fresh refl fresh-IsReceiver fresh-Shows

steps_to-Way_example : Way ((0, first_screen) ∷ []) 0 (steps_to ((0, first_screen) ∷ []) 0)
unfolding contains
steps_to-Way_example = steps_to-Way ((0, first_screen) ∷ []) 0 Rooted-first refl

-- As many states more as it takes for some to be thrown away.
abbrev grown : ℕ → Client
grown zero = fresh
grown (suc n) = apply_diff outside env n (suc n) hello (grown n)

grown-IsReceiver : (n : ℕ) → IsReceiver (grown n)
grown-IsReceiver zero = fresh-IsReceiver
grown-IsReceiver (suc n) =
    apply_diff-IsReceiver outside env n (suc n) hello (grown n) (grown-IsReceiver n)

throw_away_until-IsReceiver_example : IsReceiver (throw_away_until outside 60 (grown 64))
throw_away_until-IsReceiver_example =
    throw_away_until-IsReceiver outside 60 (grown 64) (grown-IsReceiver 64)

-- The first changes, with an acknowledgment of the state 4.
abbrev greeting : Instruction
greeting = record {
  version = 2;
  old_num = 0;
  new_num = 1;
  ack_num = 4;
  throwaway_num = 0;
  diff = hello;
}

receive_instruction-BothValid_example :
    BothValid (receive_instruction outside env (write_instruction greeting []) fresh)
receive_instruction-BothValid_example =
    receive_instruction-BothValid outside env (write_instruction greeting []) fresh
      (client-IsValid, fresh-IsReceiver)
