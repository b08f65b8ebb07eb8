-- ===== src/Bdp/Frames/Counter.antt =====
-- The counter of active frames, and the search by sequence number.
use emulation_lib.Prelude.{
  ℕ, ◌+◌, ◌-◌, ◌<◌, List, [], ◌∷◌, ◌++◌, ◌≡◌, inl, inr, arith, refl, ap, ◌==◌, Option, none, some,
  Option-cases, Bool-cases, length, length-append,
}
use emulation_lib.Err.{Err, pass, fail}
use emulation_lib.Bdp.Types.{hdr_seq}
use emulation_lib.Bdp.Frames.{
  FrameInfo, Frames, SocketHeader, one_less, svs_bdp_frame_add, svs_bdp_node_find, remove_found,
  found_and_removed, svs_bdp_frame_find_and_remove,
}
use emulation_lib.Bdp.Frames.Pass.{Visit, keep, count_kept, visit, pass_from, frame_pass}

-- The counter is the length of the list.
abbrev pub Counted : Frames → Type 0
Counted fs = fs.active_frames ≡ length fs.nodes

pub frame_add-Counted :
    (fs : Frames) (hdr : SocketHeader) (bytes : List ℕ)
    → Counted fs
    → Counted (svs_bdp_frame_add fs hdr bytes)
unfolding svs_bdp_frame_add
frame_add-Counted fs hdr bytes h = omega (arith, length-append fs.nodes (_ ∷ []))

one_less_pos : (n : ℕ) → 0 < n → one_less n ≡ n - 1
unfolding one_less
one_less_pos n h = ground arith

pass_from-Counted :
    (clock : ℕ → ℕ) (i : ℕ) (passed : List FrameInfo) (active_frames : ℕ) (left : List FrameInfo)
    → active_frames ≡ length passed + length left
    → Counted (pass_from clock i passed active_frames left).frames
unfolding pass_from
pass_from-Counted clock i passed active_frames [] h = omega arith
pass_from-Counted clock i passed active_frames (n ∷ left) h =
    pass_from-Counted clock (i + 2) (passed ++ keep v.kept) (count_kept v.kept active_frames) left
      (kept_or_not v.kept)
  where
    v : Visit
    v = visit (clock i) (clock (i + 1)) (passed ++ left) n

    kept_or_not :
        (o : Option FrameInfo)
        → count_kept o active_frames ≡ length (passed ++ keep o) + length left
    kept_or_not none = ground (arith, one_less_pos active_frames, length-append passed [])
    kept_or_not (some m) = omega (arith, length-append passed (m ∷ []))

-- Where the counter of active frames is the length of the list, it still is after a pass of the frame
-- thread.
pub frame_pass-Counted :
    (clock : ℕ → ℕ) (fs : Frames) → Counted fs → Counted (frame_pass clock fs).frames
unfolding frame_pass
frame_pass-Counted clock fs h = pass_from-Counted clock 0 [] fs.active_frames fs.nodes (omega arith)

-- The search takes out exactly the first frame with the number: the list is the frames before it, which
-- all have other numbers, that frame, and those behind it.
pub record IsTakenOut (seq : ℕ) (fs fs' : Frames) (n : FrameInfo) : Type 0 where
  pub before : List FrameInfo
  pub after : List FrameInfo
  pub seq_found : hdr_seq n.frame ≡ seq
  pub was : fs.nodes ≡ before ++ (n ∷ after)
  pub is : fs'.nodes ≡ before ++ after
  pub others : svs_bdp_node_find before seq ≡ none
  pub one_fewer : fs.active_frames ≡ fs'.active_frames + 1

record IsSplit (seq : ℕ) (nodes rest : List FrameInfo) (n : FrameInfo) : Type 0 where
  before : List FrameInfo
  after : List FrameInfo
  seq_found : hdr_seq n.frame ≡ seq
  was : nodes ≡ before ++ (n ∷ after)
  is : rest ≡ before ++ after
  others : svs_bdp_node_find before seq ≡ none

find-IsSplit :
    (seq : ℕ) (nodes : List FrameInfo) (n : FrameInfo)
    → svs_bdp_node_find nodes seq ≡ some n
    → IsSplit seq nodes (remove_found nodes seq) n
unfolding svs_bdp_node_find remove_found
find-IsSplit seq [] n h = cc
find-IsSplit seq (m ∷ nodes) n h = elim (Bool-cases (hdr_seq m.frame == seq)) [
  | inl here ↦ rw here record {
    before = [];
    after = nodes;
    seq_found = ground arith;
    was = ground arith;
    is = refl;
    others = refl;
  }
  | inr later ↦
      let rec = find-IsSplit seq nodes n (rw later at h) in
      rw later record {
        before = m ∷ rec.before;
        after = rec.after;
        seq_found = rec.seq_found;
        was = ap (◌∷◌ m) rec.was;
        is = ap (◌∷◌ m) rec.is;
        others = rw later rec.others;
      }
]

-- What a search returns: nothing is changed where no frame has the number, and otherwise the first that
-- has it is taken out and handed over.
pub data Search (seq : ℕ) (fs : Frames) : Err × Option FrameInfo × Frames → Type 0 where
  missing :
      {r : Err × Option FrameInfo × Frames}
      → svs_bdp_node_find fs.nodes seq ≡ none
      → r ≡ (fail, none, fs)
      → Search seq fs r
  taken :
      {r : Err × Option FrameInfo × Frames} (n : FrameInfo) (fs' : Frames)
      → IsTakenOut seq fs fs' n
      → r ≡ (pass, some n, fs')
      → Search seq fs r

miss_kept :
    (seq : ℕ) (fs : Frames)
    → svs_bdp_node_find fs.nodes seq ≡ none
    → svs_bdp_frame_find_and_remove fs seq ≡ (fail, none, fs)
unfolding svs_bdp_frame_find_and_remove
miss_kept seq fs e = rw (e, found_and_removed)

hit_taken :
    (seq : ℕ) (fs : Frames) (n : FrameInfo)
    → Counted fs
    → svs_bdp_node_find fs.nodes seq ≡ some n
    → Search seq fs (svs_bdp_frame_find_and_remove fs seq)
unfolding svs_bdp_frame_find_and_remove
hit_taken seq fs n c e =
    taken n taken_out
      (record {
        before = split.before;
        after = split.after;
        seq_found = split.seq_found;
        was = split.was;
        is = split.is;
        others = split.others;
        one_fewer = ground (
          arith,
          c,
          ap length split.was,
          length-append split.before (n ∷ split.after),
          one_less_pos fs.active_frames,
        );
      })
      (rw (e, found_and_removed))
  where
    split : IsSplit seq fs.nodes (remove_found fs.nodes seq) n
    split = find-IsSplit seq fs.nodes n e

    taken_out : Frames
    taken_out = record fs {
      nodes = remove_found fs.nodes seq;
      active_frames = one_less fs.active_frames;
    }

-- Where the counter is the length of the list, a search takes the first frame with its number out of the
-- list, and no other, and counts one less; where there is none, it fails and nothing changes.
pub find_and_remove-Search :
    (seq : ℕ) (fs : Frames) → Counted fs → Search seq fs (svs_bdp_frame_find_and_remove fs seq)
find_and_remove-Search seq fs c = elim (Option-cases (svs_bdp_node_find fs.nodes seq)) [
  | inl e ↦ missing e (miss_kept seq fs e)
  | inr (n, e) ↦ hit_taken seq fs n c e
]
