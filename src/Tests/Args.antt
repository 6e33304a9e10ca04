-- ===== src/Tests/Args.antt =====
-- Lines and buffers of a few bytes.
use efnet_services.Common.{ℕ, ◌≡◌, refl, ◌-◌, some, List, [], ◌∷◌, ◌++◌, take, arith}
use efnet_services.Args.{si_strncpy}
use efnet_services.Args.Copy.{written, si_strncpy-written}
use efnet_services.Args.Words.{split, not_empty, subargs, subargs-split}
use efnet_services.Args.Message.{line, args, args-line}

abbrev buffer : List ℕ
buffer = 1 ∷ 2 ∷ 3 ∷ 4 ∷ []

-- "abc"
abbrev text : List ℕ
text = 97 ∷ 98 ∷ 99 ∷ []

si_strncpy-written_example : si_strncpy buffer text 3 ≡ some (written (take (3 - 1) text) buffer)
si_strncpy-written_example = si_strncpy-written buffer text 3 (omega arith) (omega arith)

-- ",a,,bc,"
abbrev subs : List ℕ
subs = 44 ∷ 97 ∷ 44 ∷ 44 ∷ 98 ∷ 99 ∷ 44 ∷ []

subargs-split_example : subargs 8 44 (some subs) ≡ some (not_empty (split 44 subs))
subargs-split_example = subargs-split 44 8 subs (omega arith)

words_of_subs : not_empty (split 44 subs) ≡ (97 ∷ []) ∷ (98 ∷ 99 ∷ []) ∷ []
unfolding split
words_of_subs = refl

-- "a bc :d e"
abbrev middle : List (List ℕ)
middle = (97 ∷ []) ∷ (98 ∷ 99 ∷ []) ∷ []

abbrev last_arg : List ℕ
last_arg = 100 ∷ 32 ∷ 101 ∷ []

args-line_example : args 4 (some (line middle last_arg)) ≡ some (middle ++ last_arg ∷ [])
args-line_example =
    args-line 4 middle last_arg
      ((omega arith, omega arith, tt), ((omega arith, omega arith, (omega arith, tt)), tt))
      (omega arith)
