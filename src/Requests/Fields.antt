-- ===== src/Requests/Fields.antt =====
-- `process_message` takes a line apart into the fields that a message was made of.
use ups_sp.Prelude.{ℕ, ◌<◌, ◌≡◌, refl, some, List, [], ◌∷◌, ◌++◌, Bytes, arith, length, count}
use ups_sp.Server.{World, Libc}
use ups_sp.Commands.Args.{Args}
use ups_sp.Requests.{Chance, get_handler, strip_line, strip_split, parse, dispatch, process_message}

-- a field: not empty, without a split symbol, a line feed and a carriage return
abbrev pub IsField : Bytes → Type 0
IsField f = (0 < length f) × (count b';' f ≡ 0) × (count 10 f ≡ 0) × (count 13 f ≡ 0)

abbrev pub AllFields : List Bytes → Type 0
AllFields [] = Unit {0}
AllFields (f ∷ fs) = IsField f × AllFields fs

-- the fields with the split symbol between them
abbrev pub joined : List Bytes → Bytes
joined [] = []
joined (f ∷ []) = f
joined (f ∷ g ∷ fs) = f ++ (b';' ∷ joined (g ∷ fs))

module _ (libc : Libc) (chance : Chance) (w : World) (fd : ℕ) where
  -- a text that is taken apart into a name and arguments
  pub process_message_run :
      (text line name : Bytes) (argv : Args)
      → 0 < length text
      → strip_split (strip_line text) ≡ some line
      → 0 < length line
      → parse line ≡ (some name, argv)
      → process_message libc chance fd text w ≡ dispatch libc chance fd (get_handler name) argv w
  unfolding process_message
  process_message_run [] line name argv h s l p = absurd (omega arith)
  process_message_run (x ∷ text) [] name argv h s l p = absurd (omega arith)
  process_message_run (x ∷ text) (c ∷ line) name argv h s l p = rw (s, p) refl
