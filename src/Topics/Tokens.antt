-- ===== src/Topics/Tokens.antt =====
-- `tokenize_topic`: a topic split at its slashes, and put together again.
use Prim.Native.Char.{Char, code}
use Prim.Native.String.{String, [], ◌∷◌, ◌++◌}
use mathlib.Core.Path.{◌≡◌, refl, ap, ap₂, sym, ◌∙◌}
use mathlib.Core.Logic.{inl, inr}
use mathlib.Core.List.{List}
use text.Mathlib.TextEquality.{Char-path}
use text.Mathlib.TextLemmas.{nil-append, cons-append}
use mesquitte_client.Base.{if◌then◌else◌, nat_beq, nat_beq_iff, Bool-cases}

-- The parts of `topic.split('/')`, of which there is always a first.
unfoldable pub split_slash : String → String × List String
split_slash [] = ("", List.[])
split_slash (c ∷ s) =
    let (first, others) = split_slash s in
    if nat_beq (code c) b'/' then ("", List.◌∷◌ first others) else (c ∷ first, others)

unfoldable pub tokenize_topic : String → List String
tokenize_topic topic = let (first, others) = split_slash topic in List.◌∷◌ first others

pub join_from : String → List String → String
join_from first List.[] = first
join_from first (List.◌∷◌ next others) = first ++ ("/" ∷ join_from next others)

-- The topic of some tokens.
pub join : List String → String
unfolding join_from
join List.[] = ""
join (List.◌∷◌ first others) = join_from first others

join_from-cons :
    (c : Char) (first : String) (others : List String)
    → join_from (c ∷ first) others ≡ c ∷ join_from first others
unfolding join_from
join_from-cons c first List.[] = refl
join_from-cons c first (List.◌∷◌ next others) = cons-append c first _

join_from-split_slash : (s : String) → join_from (split_slash s).0 (split_slash s).1 ≡ s
unfolding join_from split_slash
join_from-split_slash [] = refl
join_from-split_slash (c ∷ s) = elim (Bool-cases (nat_beq (code c) b'/')) [
  | inl slash ↦
      let same = Char-path c "/" ((nat_beq_iff _ _).0 slash) in
      rw slash (nil-append _ ∙ ap₂ ◌∷◌ (sym same) (join_from-split_slash s))
  | inr other ↦ rw other (join_from-cons c _ _ ∙ ap (◌∷◌ c) (join_from-split_slash s))
]

-- Joining the tokens of a topic gives the topic back, so different topics have different tokens.
pub join-tokenize_topic : (s : String) → join (tokenize_topic s) ≡ s
unfolding join tokenize_topic
join-tokenize_topic s = join_from-split_slash s
