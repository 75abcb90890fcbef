-- ===== src/PathParser/Packing.antt =====
-- system/pathparser.cpp: `packInto` writes the path of its pieces.
use mathlib.Core.Option
use safely.Prelude.{
  ℕ, zero, suc, ◌+◌, ◌≤◌, ◌<◌, ◌≡◌, refl, sym, ap, ◌∙◌, arith, Bool, true, false, ◌&&◌, ◌||◌, some,
  List, [], ◌∷◌, ◌++◌, ltb, if◌then◌else◌, length, get_or, drop, set, u32_mod, length-append,
  drop-get_or, drop-all, append_assoc,
}
use safely.Indexer
use safely.Indexer.{Indexer, Memory}
use safely.Indexer.Writing.{overwrite}
use safely.Indexer.Putting.{put, put_all, put_all_room, put_all-append, put_room, moved}
use safely.Chain
use safely.Chain.{Scanner}
use safely.Chain.Scanning.{at_step, has_next-forward, next-forward}
use safely.PathParser.{Rules, Converter, pack_piece, pack_loop, pack_end, pack_into}
use safely.PathParser.Sizes.{IsFaithful, following, slash_if, joined}

no_more : (jx : Indexer) → jx.pointer ≡ jx.length → Indexer.has_next jx ≡ false
no_more jx q = unfold Indexer.has_next in ground arith

-- What the loop leaves is ended by a slash where the rules want one and something is there.
end_with :
    (b : Bool) (slash : ℕ) (packer : Indexer) (mem : Memory ℕ)
    → 0 < packer.pointer
    → packer.pointer + length (slash_if b slash) ≡ packer.length
    → (let (mem', packer') =
          if b && ltb 0 packer.pointer then put slash packer mem else (mem, packer) in
        if Indexer.has_next packer' then put 0 packer' mem' else (mem', packer'))
      ≡ put_all (slash_if b slash) packer mem
end_with true slash packer mem p e =
    let used : ltb 0 packer.pointer ≡ true = ground arith in
    let wrote = put_room slash packer mem (omega arith) in
    let ended = no_more (moved 1 packer) (omega arith) in
    let one : put_all (slash ∷ []) packer mem ≡ put slash packer mem = unfold put_all in refl in
    rw used (rw one (rw wrote (rw ended refl)))
end_with false slash packer mem p e =
    let ended = no_more packer (omega arith) in
    let nothing : put_all [] packer mem ≡ (mem, packer) = unfold put_all in refl in
    rw nothing (rw ended refl)

pack_end_lem :
    (rule : Rules) (packer : Indexer) (mem : Memory ℕ)
    → 0 < packer.pointer
    → packer.pointer + length (slash_if rule.after rule.slash) ≡ packer.length
    → pack_end rule packer mem ≡ put_all (slash_if rule.after rule.slash) packer mem
unfolding pack_end
pack_end_lem rule packer mem p e = end_with rule.after rule.slash packer mem p e

module _ (converter : Converter) (image : List ℕ → List ℕ) (c : IsFaithful converter image) where
  pack_stop :
      (rule : Rules) (fuel : ℕ) (s : Scanner) (pieces : List (List ℕ)) (packer : Indexer)
      (mem : Memory ℕ)
      → Chain.has_next pieces s ≡ false
      → pack_loop converter rule (suc fuel) s pieces packer mem ≡ some (mem, packer)
  unfolding pack_loop
  pack_stop rule fuel s pieces packer mem h = rw h refl

  pack_step :
      (rule : Rules) (fuel : ℕ) (s : Scanner) (pieces : List (List ℕ)) (packer : Indexer)
      (mem : Memory ℕ)
      → Chain.has_next pieces s ≡ true
      → let (place, s') = Chain.next s in
        let (mem', packer') = pack_piece converter rule s (get_or pieces place []) packer mem in
        pack_loop converter rule (suc fuel) s pieces packer mem
        ≡ pack_loop converter rule fuel s' pieces packer' mem'
  unfolding pack_loop
  pack_step rule fuel s pieces packer mem h = rw h refl

  lead_then :
      (b : Bool) (slash : ℕ) (text : List ℕ) (packer : Indexer) (mem : Memory ℕ)
      → packer.length < u32_mod
      → packer.pointer + length (slash_if b slash ++ image text) ≤ packer.length
      → (let (mem', packer') = if b then put slash packer mem else (mem, packer) in
          converter.convert text packer' mem')
        ≡ put_all (slash_if b slash ++ image text) packer mem
  lead_then true slash text packer mem w h =
      let a = packer.buffer + packer.pointer in
      let wrote = put_room slash packer mem (omega arith) in
      let all : put_all (slash ∷ image text) packer mem
          ≡ put_all (image text) (put slash packer mem).1 (put slash packer mem).0 =
        unfold put_all in refl in
      ap (λ (r : Memory ℕ × Indexer). converter.convert text r.1 r.0) wrote
      ∙ c.writes text (moved 1 packer) (set mem a slash) w (omega arith)
      ∙ sym (ap (λ (r : Memory ℕ × Indexer). put_all (image text) r.1 r.0) wrote)
      ∙ sym all
  lead_then false slash text packer mem w h = c.writes text packer mem w h

  -- one piece, behind a slash unless it is the first and the rules have none there
  pack_piece_lem :
      (rule : Rules) (a : ℕ) (text : List ℕ) (packer : Indexer) (mem : Memory ℕ)
      → let put_before = ltb 0 a || rule.before in
        let lead = slash_if put_before rule.slash in
        packer.length < u32_mod
        → packer.pointer + length (lead ++ image text) ≤ packer.length
        → pack_piece converter rule (at_step a false) text packer mem
          ≡ put_all (lead ++ image text) packer mem
  pack_piece_lem rule a text packer mem w h =
      unfold pack_piece Chain.ordinal in
      lead_then (ltb 0 a || rule.before) rule.slash text packer mem w h

  -- the texts after the first
  pack_loop_lem :
      (rule : Rules) (left a : ℕ) (pieces : List (List ℕ)) (packer : Indexer) (mem : Memory ℕ)
      → a + left ≡ length pieces
      → 0 < a
      → length pieces < u32_mod
      → packer.length < u32_mod
      → packer.pointer + length (following rule.slash image (drop a pieces)) ≤ packer.length
      → pack_loop converter rule (suc left) (at_step a false) pieces packer mem
        ≡ some (put_all (following rule.slash image (drop a pieces)) packer mem)
  pack_loop_lem rule zero a pieces packer mem e p w l h =
      let gone = drop-all a pieces (omega arith) in
      let ended : Chain.has_next pieces (at_step a false) ≡ false =
        has_next-forward a pieces ∙ ground arith in
      let nothing : put_all (following rule.slash image []) packer mem ≡ (mem, packer) =
        unfold following put_all in refl in
      pack_stop rule zero (at_step a false) pieces packer mem ended ∙ rw gone (rw nothing refl)
  pack_loop_lem rule (suc left) a pieces packer mem e p w l h =
      let text = get_or pieces a [] in
      let texts = drop (suc a) pieces in
      let rest = following rule.slash image texts in
      let more : Chain.has_next pieces (at_step a false) ≡ true =
        has_next-forward a pieces ∙ ground arith in
      let split = drop-get_or pieces a [] (omega arith) in
      let chunk = rule.slash ∷ image text in
      let all : following rule.slash image (drop a pieces) ≡ chunk ++ rest =
        ap (λ ts. following rule.slash image ts) split ∙ (unfold following in refl) in
      let size : length (following rule.slash image (drop a pieces)) ≡ length chunk + length rest =
        ap (λ (cs : List ℕ). length cs) all ∙ length-append chunk rest in
      let later : (ltb 0 a || rule.before) ≡ true = ground arith in
      let one : pack_piece converter rule (at_step a false) text packer mem
          ≡ put_all chunk packer mem =
        pack_piece_lem rule a text packer mem l (rw later (omega arith)) ∙ rw later refl in
      let wrote = put_all_room chunk packer mem (omega arith) in
      let m1 = overwrite mem (packer.buffer + packer.pointer) chunk in
      pack_step rule (suc left) (at_step a false) pieces packer mem more
      ∙ ap
          (λ (r : ℕ × Scanner).
            let (m, q) =
              pack_piece converter rule (at_step a false) (get_or pieces r.0 []) packer mem in
            pack_loop converter rule (suc left) r.1 pieces q m)
          (next-forward a (omega arith))
      ∙ ap
          (λ (r : Memory ℕ × Indexer).
            pack_loop converter rule (suc left) (at_step (suc a) false) pieces r.1 r.0)
          (one ∙ wrote)
      ∙ pack_loop_lem rule left (suc a) pieces (moved (length chunk) packer) m1 (omega arith)
          (omega arith) w l (omega arith)
      ∙ sym (ap (λ (r : Memory ℕ × Indexer). some (put_all rest r.1 r.0)) wrote)
      ∙ sym (ap some (ap (λ cs. put_all cs packer mem) all ∙ put_all-append chunk rest packer mem))

  -- `packInto` of a path whose first text is not converted to nothing, into a buffer of exactly its size,
  -- fills the buffer with the path.
  pub pack_into-joined :
      (rule : Rules) (text : List ℕ) (texts : List (List ℕ)) {packer : Indexer} (mem : Memory ℕ)
      → let pieces = text ∷ texts in
        let path = joined rule image pieces in
        length pieces < u32_mod
        → packer.length < u32_mod
        → packer.pointer ≡ 0
        → packer.length ≡ length path
        → 0 < length (image text)
        → pack_into converter rule (suc (length pieces)) (at_step 0 false) pieces packer mem
          ≡ some (overwrite mem packer.buffer path, moved (length path) packer)
  pack_into-joined rule text texts {packer} mem w l p e h =
      let pieces = text ∷ texts in
      let lead = slash_if rule.before rule.slash in
      let start = lead ++ image text in
      let rest = following rule.slash image texts in
      let trail = slash_if rule.after rule.slash in
      let path = joined rule image pieces in
      let body = start ++ rest in
      let opened : path ≡ lead ++ (image text ++ (rest ++ trail)) = unfold joined in refl in
      let whole : path ≡ body ++ trail =
        opened
        ∙ sym (append_assoc start rest trail ∙ append_assoc lead (image text) (rest ++ trail)) in
      let size : length path ≡ length body + length trail =
        ap (λ (cs : List ℕ). length cs) whole ∙ length-append body trail in
      let some_start : 0 < length start = omega (arith, length-append lead (image text)) in
      let sizes = length-append start rest in
      let m0 = packer.buffer + packer.pointer in
      let more : Chain.has_next pieces (at_step 0 false) ≡ true =
        has_next-forward 0 pieces ∙ ground arith in
      let one =
        pack_piece_lem rule 0 text packer mem l (omega arith)
        ∙ put_all_room start packer mem (omega arith) in
      let m1 = overwrite mem m0 start in
      let looped : pack_loop converter rule (suc (length pieces)) (at_step 0 false) pieces packer
            mem
          ≡ some (put_all body packer mem) =
        pack_step rule (length pieces) (at_step 0 false) pieces packer mem more
        ∙ ap
            (λ (r : ℕ × Scanner).
              let (m, q) =
                pack_piece converter rule (at_step 0 false) (get_or pieces r.0 []) packer mem in
              pack_loop converter rule (length pieces) r.1 pieces q m)
            (next-forward 0 (omega arith))
        ∙ ap
            (λ (r : Memory ℕ × Indexer).
              pack_loop converter rule (length pieces) (at_step 1 false) pieces r.1 r.0)
            one
        ∙ pack_loop_lem rule (length texts) 1 pieces (moved (length start) packer) m1 (omega arith)
            (omega arith) w l (omega arith)
        ∙ sym (
            ap (λ (r : Memory ℕ × Indexer). some (put_all rest r.1 r.0))
              (put_all_room start packer mem (omega arith)))
        ∙ sym (ap some (put_all-append start rest packer mem)) in
      let bodied = put_all_room body packer mem (omega arith) in
      let m2 = overwrite mem m0 body in
      let ended = pack_end_lem rule (moved (length body) packer) m2 (omega arith) (omega arith) in
      let at0 : packer.buffer + packer.pointer ≡ packer.buffer = omega arith in
      let all : pack_end rule (put_all body packer mem).1 (put_all body packer mem).0
          ≡ (overwrite mem packer.buffer path, moved (length path) packer) =
        ap (λ (r : Memory ℕ × Indexer). pack_end rule r.1 r.0) bodied
        ∙ ended
        ∙ sym (ap (λ (r : Memory ℕ × Indexer). put_all trail r.1 r.0) bodied)
        ∙ sym (put_all-append body trail packer mem)
        ∙ ap (λ cs. put_all cs packer mem) (sym whole)
        ∙ put_all_room path packer mem (omega arith)
        ∙ rw at0 refl in
      unfold pack_into in
      ap (λ o. Option.map (λ (r : Memory ℕ × Indexer). pack_end rule r.1 r.0) o) looped
      ∙ ap some all
