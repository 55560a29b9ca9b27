-- ===== src/Services/Paths/Plain.antt =====
-- Paths whose elements are plain names are joined as they are.
use Prim.Native.Char.{Char, code}
use mathlib.Core.List.{append-nil, append_assoc, reverse-cons}
use text.Mathlib.TextLemmas.{nil-append, cons-append}
use text.Mathlib.TextLemmas.{append_assoc as text_assoc}
use kubernetes_external_prov.Base.{
  ==-false, All, All-append, Bool, List, String, [], ap, arith, eqb, false≢true, join, not, refl,
  reverse, sym, true, ◌&&◌, ◌++◌, ◌^^◌, ◌∙◌, ◌∷◌, ◌≡◌, ◌≢◌,
}
use kubernetes_external_prov.Services.Paths.{
  clean, clean_from, clean_step, is_rooted, path_join, split_slash,
}

abbrev pub slash_free : String → Bool
slash_free String.[] = true
slash_free (String.◌∷◌ c s) = not (eqb (code c) b'/') && slash_free s

-- A name that stands for itself as an element of a path.
pub record IsPlain (name : String) : Type 0 where
  pub no_slash : slash_free name ≡ true
  pub not_empty : name ≢ ""
  pub not_here : name ≢ "."
  pub not_up : name ≢ ".."

-- The absolute path with those elements.
abbrev pub absolute : List String → String
absolute parts = "/" ^^ join "/" parts

char-cons : (c : Char) (s : String) → String.◌∷◌ c "" ^^ s ≡ String.◌∷◌ c s
char-cons c s = cons-append c "" s ∙ ap (λ r. String.◌∷◌ c r) (nil-append s)

slash-cons : (s : String) → "/" ^^ s ≡ String.◌∷◌ "/" s
slash-cons s = char-cons "/" s

split-slash_free : (t : String) → slash_free t ≡ true → split_slash t ≡ t ∷ []
unfolding split_slash
split-slash_free String.[] h = refl
split-slash_free (String.◌∷◌ c s) h = ground (arith, split-slash_free s, char-cons c s)

split-append_slash :
    (t s : String) → slash_free t ≡ true → split_slash (t ^^ String.◌∷◌ "/" s) ≡ t ∷ split_slash s
unfolding split_slash
split-append_slash String.[] s h = rw nil-append
split-append_slash (String.◌∷◌ c t) s h =
    rw cons-append (ground (arith, split-append_slash t s, char-cons c t))

split-join :
    (p : String) (ps : List String)
    → All IsPlain (p ∷ ps)
    → split_slash (join "/" (p ∷ ps)) ≡ p ∷ ps
unfolding join
split-join p [] (plain, rest) = split-slash_free p plain.no_slash
split-join p (q ∷ qs) (plain, rest) =
    ap (λ r. split_slash (p ^^ r)) (slash-cons (join "/" (q ∷ qs)))
    ∙ split-append_slash p (join "/" (q ∷ qs)) plain.no_slash
    ∙ ap (λ r. p ∷ r) (split-join q qs rest)

step-plain :
    (rooted : Bool) (stack : List String) (p : String)
    → IsPlain p
    → clean_step rooted stack p ≡ p ∷ stack
unfolding clean_step
step-plain rooted stack p plain =
    rw (==-false p "" plain.not_empty, ==-false p "." plain.not_here, ==-false p ".." plain.not_up)

clean_from-plain :
    (rooted : Bool) (stack parts : List String)
    → All IsPlain parts
    → clean_from rooted stack parts ≡ reverse stack ++ parts
unfolding clean_from
clean_from-plain rooted stack [] plain = sym (append-nil (reverse stack))
clean_from-plain rooted stack (p ∷ ps) (plain, rest) =
    ap (λ s. clean_from rooted s ps) (step-plain rooted stack p plain)
    ∙ clean_from-plain rooted (p ∷ stack) ps rest
    ∙ ap (λ r. r ++ ps) (reverse-cons p stack)
    ∙ append_assoc (reverse stack) (p ∷ []) ps

clean-rooted :
    (s : String) → clean ("/" ^^ s) ≡ "/" ^^ join "/" (clean_from true [] (split_slash s))
unfolding clean split_slash clean_from clean_step
clean-rooted s = ap clean (slash-cons s)

clean-absolute :
    (p : String) (ps : List String)
    → All IsPlain (p ∷ ps)
    → clean (absolute (p ∷ ps)) ≡ absolute (p ∷ ps)
clean-absolute p ps plain =
    clean-rooted (join "/" (p ∷ ps))
    ∙ ap (λ r. "/" ^^ join "/" (clean_from true [] r)) (split-join p ps plain)
    ∙ ap (λ r. "/" ^^ join "/" r) (clean_from-plain true [] (p ∷ ps) plain)

join-last :
    (p : String) (ps : List String) (name : String)
    → join "/" (p ∷ ps) ^^ "/" ^^ name ≡ join "/" (p ∷ (ps ++ name ∷ []))
unfolding join
join-last p [] name = refl
join-last p (q ∷ qs) name =
    text_assoc p ("/" ^^ join "/" (q ∷ qs)) ("/" ^^ name)
    ∙ ap (λ r. p ^^ r) (text_assoc "/" (join "/" (q ∷ qs)) ("/" ^^ name))
    ∙ ap (λ r. p ^^ "/" ^^ r) (join-last q qs name)

absolute-last :
    (p : String) (ps : List String) (name : String)
    → absolute (p ∷ ps) ^^ "/" ^^ name ≡ absolute (p ∷ (ps ++ name ∷ []))
absolute-last p ps name =
    text_assoc "/" (join "/" (p ∷ ps)) ("/" ^^ name) ∙ ap (λ r. "/" ^^ r) (join-last p ps name)

absolute-not_empty : (parts : List String) → absolute parts ≢ ""
absolute-not_empty parts e = false≢true (sym (ap is_rooted (sym (slash-cons (join "/" parts)) ∙ e)))

-- A plain name joined to an absolute path with plain elements stands below it, as it is.
pub path_join-plain :
    (p : String) (ps : List String) (name : String)
    → All IsPlain (p ∷ ps)
    → IsPlain name
    → path_join (absolute (p ∷ ps)) name ≡ absolute (p ∷ ps) ^^ "/" ^^ name
unfolding path_join
path_join-plain p ps name plain h =
    rw (==-false name "" h.not_empty, ==-false (absolute (p ∷ ps)) "" (absolute-not_empty (p ∷ ps)))
      (ap clean (absolute-last p ps name)
        ∙ clean-absolute p (ps ++ name ∷ [])
            (plain.0, All-append IsPlain ps (name ∷ []) plain.1 (h, tt))
        ∙ sym (absolute-last p ps name))
