-- ===== src/Chat/Ends.antt =====
-- What a call of the server may come to: a judgement on results, with its rules for sequencing.
use completed_projects.Common.{Bool, true, false, if◌then◌else◌}
use completed_projects.Chat.Os.{Trace, M, Result, ok, exits, stuck}

-- The operation ends, by `exit` or with a result of which `P` holds.
abbrev pub Ends : {A : Type 0} → (A → Type 0) → Result A → Type 0
Ends P (ok a t) = P a
Ends P (exits t) = Unit {0}
Ends P stuck = ⊥

pub Ends-bind :
    {A B : Type 0} (P : A → Type 0) (Q : B → Type 0) (r : Result A) (f : A → M B)
    → Ends P r
    → ((a : A) (t : Trace) → P a → Ends Q (f a t))
    → Ends Q (elim r [ ok a t' ↦ f a t' | exits t' ↦ exits t' | stuck ↦ stuck ])
Ends-bind P Q (ok a t) f h k = k a t h
Ends-bind P Q (exits t) f h k = tt
Ends-bind P Q stuck f h k = h

pub Ends-weaken :
    {A : Type 0} (P Q : A → Type 0) (r : Result A) → ((a : A) → P a → Q a) → Ends P r → Ends Q r
Ends-weaken P Q (ok a t) f h = f a h
Ends-weaken P Q (exits t) f h = tt
Ends-weaken P Q stuck f h = h

pub Ends-if :
    {A : Type 0} (P : A → Type 0) (b : Bool) (m k : M A) (t : Trace)
    → Ends P (m t)
    → Ends P (k t)
    → Ends P ((if b then m else k) t)
Ends-if P true m k t h l = h
Ends-if P false m k t h l = l

abbrev pub Anything : {A : Type 0} → A → Type 0
Anything a = Unit {0}
