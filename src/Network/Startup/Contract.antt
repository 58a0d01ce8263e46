-- ===== src/Network/Startup/Contract.antt =====
-- Which contract files the coordinator takes its topics from.
use mathlib.Core.Path.{subst}
use semaforo.Prelude.{◌≡◌, refl, ◌∙◌, sym, String, Option, none, some, [], ◌∷◌}
use semaforo.Prelude.Dict
use semaforo.Prelude.Dict.{Dict}
use semaforo.Network.Startup.{
  runtime_error, other_error, Result, ok, raised, Channel, ContractFile, missing, unreadable, empty,
  mapping, Topics, require, load_topics, read_topics, or_raise, ◌>>=◌, required_channels,
}

-- A key of a channel, if both are there.
abbrev pub key_in : Option Channel → (Channel → Option String) → Option String
key_in none key = none
key_in (some c) key = key c

abbrev pub HasTopics : Dict Channel → Topics → Type 0
HasTopics d t =
    (key_in (Dict.get d "telemetry") (λ c. c.subscribe) ≡ some t.topic_telemetry)
    × (key_in (Dict.get d "commands") (λ c. c.pattern) ≡ some t.topic_command_fmt)
    × (key_in (Dict.get d "timing") (λ c. c.pattern) ≡ some t.topic_timing_fmt)

-- A contract with the three channels and their keys.
abbrev pub Provides : ContractFile → Topics → Type 0
Provides (mapping (some d)) t = HasTopics d t
Provides _ t = ⊥

abbrev IsRead : Dict Channel → Result Topics → Type 0
IsRead d (ok t) = HasTopics d t
IsRead d (raised e) = (t : Topics) → ¬ HasTopics d t

pub none-some {ℓ} : {A : Type ℓ} {a : A} → ◌≡◌ {A = Option A} none (some a) → ⊥
none-some h = cc

-- What the keys of the three channels give.
abbrev read_keys : Option String → Option String → Option String → Result Topics
read_keys (some a) (some b) (some c) =
    ok (record { topic_telemetry = a; topic_command_fmt = b; topic_timing_fmt = c })
read_keys _ _ _ = raised other_error

read_topics-keys :
    (d : Dict Channel) (c1 c2 c3 : Channel)
    → Dict.get d "telemetry" ≡ some c1
    → Dict.get d "commands" ≡ some c2
    → Dict.get d "timing" ≡ some c3
    → read_topics d ≡ read_keys c1.subscribe c2.pattern c3.pattern
unfolding read_topics
read_topics-keys d c1 c2 c3 e1 e2 e3 = rw (e1, e2, e3) (by_keys c1.subscribe c2.pattern c3.pattern)
  where
    by_keys :
        (a b c : Option String)
        → (or_raise a other_error >>= λ x. or_raise b other_error >>= λ y.
            or_raise c other_error >>= λ z.
            ok (record { topic_telemetry = x; topic_command_fmt = y; topic_timing_fmt = z }))
          ≡ read_keys a b c
    by_keys none b c = refl
    by_keys (some a) none c = refl
    by_keys (some a) (some b) none = refl
    by_keys (some a) (some b) (some c) = refl

read_keys-IsRead :
    (d : Dict Channel) (a b c : Option String)
    → key_in (Dict.get d "telemetry") (λ c. c.subscribe) ≡ a
    → key_in (Dict.get d "commands") (λ c. c.pattern) ≡ b
    → key_in (Dict.get d "timing") (λ c. c.pattern) ≡ c
    → IsRead d (read_keys a b c)
read_keys-IsRead d (some a) (some b) (some c) ea eb ec = (ea, eb, ec)
read_keys-IsRead d (some a) (some b) none ea eb ec = λ t h. none-some (sym ec ∙ h.2)
read_keys-IsRead d (some a) none c ea eb ec = λ t h. none-some (sym eb ∙ h.1)
read_keys-IsRead d none b c ea eb ec = λ t h. none-some (sym ea ∙ h.0)

abbrev check_three :
    Dict Channel → Option Channel → Option Channel → Option Channel → Result (Dict Channel)
check_three d (some _) (some _) (some _) = ok d
check_three d _ _ _ = raised runtime_error

require_three :
    (d : Dict Channel) (o1 o2 o3 : Option Channel)
    → Dict.get d "telemetry" ≡ o1
    → Dict.get d "commands" ≡ o2
    → Dict.get d "timing" ≡ o3
    → require d required_channels ≡ check_three d o1 o2 o3
unfolding require
require_three d none o2 o3 e1 e2 e3 = rw (e1, require) refl
require_three d (some _) none o3 e1 e2 e3 = rw (e1, e2, require) refl
require_three d (some _) (some _) none e1 e2 e3 = rw (e1, e2, e3, require) refl
require_three d (some _) (some _) (some _) e1 e2 e3 = rw (e1, e2, e3, require) refl

checked-IsRead :
    (d : Dict Channel) (o1 o2 o3 : Option Channel)
    → Dict.get d "telemetry" ≡ o1
    → Dict.get d "commands" ≡ o2
    → Dict.get d "timing" ≡ o3
    → IsRead d (check_three d o1 o2 o3 >>= read_topics)
checked-IsRead d none o2 o3 e1 e2 e3 = λ t h. none-some (rw e1 at h.0)
checked-IsRead d (some _) none o3 e1 e2 e3 = λ t h. none-some (rw e2 at h.1)
checked-IsRead d (some _) (some _) none e1 e2 e3 = λ t h. none-some (rw e3 at h.2)
checked-IsRead d (some c1) (some c2) (some c3) e1 e2 e3 =
    subst (IsRead d) (sym (read_topics-keys d c1 c2 c3 e1 e2 e3))
      (read_keys-IsRead d c1.subscribe c2.pattern c3.pattern (rw e1 refl) (rw e2 refl) (rw e3 refl))

require-IsRead : (d : Dict Channel) → IsRead d (require d required_channels >>= read_topics)
require-IsRead d =
    subst (λ r. IsRead d (r >>= read_topics))
      (sym (
        require_three d (Dict.get d "telemetry") (Dict.get d "commands") (Dict.get d "timing") refl
          refl refl))
      (checked-IsRead d (Dict.get d "telemetry") (Dict.get d "commands") (Dict.get d "timing") refl
        refl refl)

abbrev pub IsReadFrom : ContractFile → Result Topics → Type 0
IsReadFrom file (ok t) = Provides file t
IsReadFrom file (raised e) = (t : Topics) → ¬ Provides file t

mapping-IsReadFrom :
    (d : Dict Channel) (r : Result Topics) → IsRead d r → IsReadFrom (mapping (some d)) r
mapping-IsReadFrom d (ok t) h = h
mapping-IsReadFrom d (raised e) h = h

-- The constants of the module are read from a contract that has them, and only from such a one.
pub load_topics-IsReadFrom :
    (file : ContractFile) → IsReadFrom file (load_topics file >>= read_topics)
unfolding load_topics Dict.get
load_topics-IsReadFrom missing = λ t h. h
load_topics-IsReadFrom unreadable = λ t h. h
load_topics-IsReadFrom empty = λ t h. h
load_topics-IsReadFrom (mapping none) = λ t h. h
load_topics-IsReadFrom (mapping (some [])) = λ t h. none-some (h.0)
load_topics-IsReadFrom (mapping (some (c ∷ cs))) =
    mapping-IsReadFrom (c ∷ cs) _ (require-IsRead (c ∷ cs))
