-- ===== src/PathParser/Sizes.antt =====
-- system/pathparser.cpp: the path of some pieces, and `length`, its size.
use mathlib.Core.Option
use safely.Prelude.{
  ℕ, zero, suc, ◌+◌, ◌≤◌, ◌<◌, ◌≡◌, refl, ap, ◌∙◌, arith, Bool, true, false, some, List, [], ◌∷◌,
  ◌++◌, if◌then◌else◌, length, get_or, drop, subst, u32_mod, add_u32, sub_u32, length-append,
  drop-get_or, drop-all,
}
use safely.Indexer.{Indexer, Memory}
use safely.Indexer.Putting.{put_all}
use safely.Chain
use safely.Chain.{Scanner}
use safely.Chain.Scanning.{at_step, has_next-forward, next-forward}
use safely.PathParser.{Rules, Converter, one_if, length_loop, length_of}

-- A converter that makes an image of each text, and writes it where there is room for it.
pub record IsFaithful (converter : Converter) (image : List ℕ → List ℕ) : Type 0 where
  pub sizes : (text : List ℕ) → converter.size text ≡ length (image text)
  pub writes :
      (text : List ℕ) (ix : Indexer) (mem : Memory ℕ)
      → ix.length < u32_mod
      → ix.pointer + length (image text) ≤ ix.length
      → converter.convert text ix mem ≡ put_all (image text) ix mem

-- the texts of a path after its first, each behind a slash
unfoldable pub following : ℕ → (List ℕ → List ℕ) → List (List ℕ) → List ℕ
following slash image [] = []
following slash image (text ∷ texts) = slash ∷ (image text ++ following slash image texts)

abbrev pub slash_if : Bool → ℕ → List ℕ
slash_if b slash = if b then slash ∷ [] else []

-- the path of some texts; of none, it is empty whatever the rules say
unfoldable pub joined : Rules → (List ℕ → List ℕ) → List (List ℕ) → List ℕ
unfolding following
joined rule image [] = []
joined rule image (text ∷ texts) =
    slash_if rule.before rule.slash
    ++ (image text ++ (following rule.slash image texts ++ slash_if rule.after rule.slash))

module _ (converter : Converter) (image : List ℕ → List ℕ) (c : IsFaithful converter image) where
  length_end :
      (fuel : ℕ) (s : Scanner) (pieces : List (List ℕ)) (quantity : ℕ)
      → Chain.has_next pieces s ≡ false
      → length_loop converter (suc fuel) s pieces quantity ≡ some quantity
  unfolding length_loop
  length_end fuel s pieces quantity h = rw h refl

  length_step :
      (fuel : ℕ) (s : Scanner) (pieces : List (List ℕ)) (quantity : ℕ)
      → Chain.has_next pieces s ≡ true
      → length_loop converter (suc fuel) s pieces quantity
        ≡ length_loop converter fuel
            (Chain.next s).1
            pieces
            (add_u32 quantity (add_u32 1 (converter.size (get_or pieces (Chain.next s).0 []))))
  unfolding length_loop
  length_step fuel s pieces quantity h = rw h refl

  length_following :
      (slash : ℕ) (text : List ℕ) (texts : List (List ℕ))
      → length (following slash image (text ∷ texts))
        ≡ 1 + length (image text) + length (following slash image texts)
  unfolding following
  length_following slash text texts =
      omega (arith, length-append (image text) (following slash image texts))

  length_loop_lem :
      (slash : ℕ) (left a : ℕ) (pieces : List (List ℕ)) (quantity : ℕ)
      → a + left ≡ length pieces
      → length pieces < u32_mod
      → quantity + length (following slash image (drop a pieces)) < u32_mod
      → length_loop converter (suc left) (at_step a false) pieces quantity
        ≡ some (quantity + length (following slash image (drop a pieces)))
  length_loop_lem slash zero a pieces quantity e w h =
      let gone = drop-all a pieces (omega arith) in
      let ended : Chain.has_next pieces (at_step a false) ≡ false =
        has_next-forward a pieces ∙ ground arith in
      let nothing : length (following slash image []) ≡ 0 = unfold following in refl in
      length_end zero (at_step a false) pieces quantity ended ∙ rw gone (rw nothing (ground arith))
  length_loop_lem slash (suc left) a pieces quantity e w h =
      let text = get_or pieces a [] in
      let texts = drop (suc a) pieces in
      let more : Chain.has_next pieces (at_step a false) ≡ true =
        has_next-forward a pieces ∙ ground arith in
      let split = drop-get_or pieces a [] (omega arith) in
      let size = length_following slash text texts in
      let bound : quantity + (1 + length (image text) + length (following slash image texts))
          < u32_mod =
        subst (λ m. quantity + m < u32_mod)
          (ap (λ ts. length (following slash image ts)) split ∙ size) h in
      let added : add_u32 quantity (add_u32 1 (converter.size text))
          ≡ quantity + (1 + length (image text)) =
        omega (arith, c.sizes text) in
      length_step (suc left) (at_step a false) pieces quantity more
      ∙ ap
          (λ (r : ℕ × Scanner).
            length_loop converter (suc left) r.1 pieces
              (add_u32 quantity (add_u32 1 (converter.size (get_or pieces r.0 [])))))
          (next-forward a (omega arith))
      ∙ ap (λ q. length_loop converter (suc left) (at_step (suc a) false) pieces q) added
      ∙ length_loop_lem slash left (suc a) pieces (quantity + (1 + length (image text)))
          (omega arith) w (omega arith)
      ∙ rw split (rw size (ground arith))

  length-slash_if : (b : Bool) (slash : ℕ) → length (slash_if b slash) ≡ one_if b
  length-slash_if true slash = refl
  length-slash_if false slash = refl

  length-joined :
      (rule : Rules) (text : List ℕ) (texts : List (List ℕ))
      → length (joined rule image (text ∷ texts)) + 1
        ≡ one_if rule.before
          + one_if rule.after
          + length (following rule.slash image (text ∷ texts))
  unfolding joined
  length-joined rule text texts =
      let rest = following rule.slash image texts in
      let trail = slash_if rule.after rule.slash in
      omega (
        arith,
        length_following rule.slash text texts,
        length-append (slash_if rule.before rule.slash) (image text ++ (rest ++ trail)),
        length-append (image text) (rest ++ trail),
        length-append rest trail,
        length-slash_if rule.before rule.slash,
        length-slash_if rule.after rule.slash,
      )

  length_of_more :
      (rule : Rules) (fuel : ℕ) (s : Scanner) (pieces : List (List ℕ))
      → Chain.has_next pieces s ≡ true
      → length_of converter rule fuel s pieces
        ≡ Option.map
            (λ q. if rule.before then q else sub_u32 q 1)
            (length_loop converter fuel s pieces (one_if rule.after))
  unfolding length_of
  length_of_more rule fuel s pieces h = rw h refl

  -- `length` of a chain of texts, which are converted faithfully, is the number of bytes of the path that
  -- they make, as far as an `unsigned` counts them; one round more than there are texts is enough.
  pub length_of-joined :
      (rule : Rules) (pieces : List (List ℕ))
      → length pieces < u32_mod
      → length (joined rule image pieces) + 1 < u32_mod
      → length_of converter rule (suc (length pieces)) (at_step 0 false) pieces
        ≡ some (length (joined rule image pieces))
  length_of-joined rule [] w h = unfold length_of joined Chain.has_next in refl
  length_of-joined rule (text ∷ texts) w h =
      let pieces = text ∷ texts in
      let all = length (following rule.slash image pieces) in
      let size = length-joined rule text texts in
      let more : Chain.has_next pieces (at_step 0 false) ≡ true =
        has_next-forward 0 pieces ∙ ground arith in
      let counted : length_loop converter (suc (length pieces)) (at_step 0 false) pieces
            (one_if rule.after)
          ≡ some (one_if rule.after + all) =
        length_loop_lem rule.slash (length pieces) 0 pieces (one_if rule.after) (omega arith) w
          (ground (arith, size)) in
      let less : (if rule.before
            then one_if rule.after + all
            else sub_u32 (one_if rule.after + all) 1)
          ≡ length (joined rule image pieces) =
        ground (arith, size, length_following rule.slash text texts) in
      length_of_more rule (suc (length pieces)) (at_step 0 false) pieces more
      ∙ ap (λ o. Option.map (λ q. if rule.before then q else sub_u32 q 1) o) counted
      ∙ ap some less
