-- ===== src/Issues/Frames.antt =====
-- What symbolication gives the processing of an event, and the stack frames that it is
-- fingerprinted by (apps/worker/src/symbolication/types.ts, fingerprint-frames.ts).
use replay_bug.Common.{
  ℕ, Bool, not, ◌==◌, ◌&&◌, ◌||◌, if◌then◌else◌, Option, none, some, List, [], ◌∷◌, any, length,
}
use replay_bug.Common.Text.{Text}
use replay_bug.Common.Int.{ℤ}

pub data SymbolicationStatus : Type 0 where
  mapped : SymbolicationStatus
  partially_mapped : SymbolicationStatus
  no_release : SymbolicationStatus
  release_not_found : SymbolicationStatus
  map_not_found : SymbolicationStatus
  invalid_map : SymbolicationStatus
  storage_unavailable : SymbolicationStatus

pub record RawSymbolicationFrame : Type 0 where
  pub filename : Text
  pub function : Text
  pub lineno : ℤ
  pub colno : ℤ
  pub in_app : Bool

pub record MappedSymbolicationFrame : Type 0 where
  pub filename : Text
  pub source : Text
  pub function : Text
  pub name : Option Text
  pub line : ℤ
  pub column : ℤ
  pub in_application : Bool
  pub mapped : Bool

-- What the enrichment holds too.
pub record SymbolicationResult : Type 0 where
  pub status : SymbolicationStatus
  pub raw_frames : List RawSymbolicationFrame
  pub mapped_frames : List MappedSymbolicationFrame
  pub mapped_frame_count : ℕ

pub record NormalizableStackFrame : Type 0 where
  pub filename : Option Text
  pub function : Option Text
  pub lineno : Option ℤ
  pub colno : Option ℤ
  pub in_app : Option Bool

abbrev pub frame_of_mapped : MappedSymbolicationFrame → NormalizableStackFrame
frame_of_mapped m = record {
  filename = some m.source;
  function = some m.function;
  lineno = some m.line;
  colno = some m.column;
  in_app = some m.in_application;
}

abbrev pub frame_of_raw : RawSymbolicationFrame → NormalizableStackFrame
frame_of_raw r = record {
  filename = some r.filename;
  function = some r.function;
  lineno = some r.lineno;
  colno = some r.colno;
  in_app = some r.in_app;
}

-- The loop over the positions of both lists.
unfoldable pub select_frames :
    List RawSymbolicationFrame → List MappedSymbolicationFrame → List NormalizableStackFrame
select_frames (r ∷ rs) (m ∷ ms) =
    let rest = select_frames rs ms in
    (if m.mapped then frame_of_mapped m else frame_of_raw r) ∷ rest
select_frames _ _ = []

unfoldable pub select_mapped_fingerprint_frames :
    SymbolicationResult → Option (List NormalizableStackFrame)
unfolding select_frames
select_mapped_fingerprint_frames result =
    let raw = result.raw_frames in
    let mapped_frames = result.mapped_frames in
    if (length raw == 0)
      || (length mapped_frames == 0)
      || not (length raw == length mapped_frames)
      || not (any (λ m. MappedSymbolicationFrame.mapped m && m.in_application) mapped_frames)
    then none
    else some (select_frames raw mapped_frames)
