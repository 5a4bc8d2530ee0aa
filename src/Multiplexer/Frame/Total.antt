-- ===== src/Multiplexer/Frame/Total.antt =====
-- The constructor of `Frame` ends, whatever it is given, pydevp2p/devp2p/multiplexer.py.
use structured_p2p_overlay_n.Prelude.{
  ℕ, suc, ◌+◌, ◌%◌, ◌≤◌, ◌<◌, true, false, Option, List, length, Result, err, ◌≡◌, ◌∙◌, arith,
  assertion_error,
}
use structured_p2p_overlay_n.Prelude.Bytes.{Bytes}
use structured_p2p_overlay_n.Rlp.{Rlp, IsRlp}
use structured_p2p_overlay_n.Multiplexer.Frame.{
  Frame, new_frames, split_frame, frame_size, enc_cmd_id, first_chunk, chunk_payload, arguments_fit,
}
use structured_p2p_overlay_n.Multiplexer.Frame.Chunks.{
  start_frame, ceil16_bounds, frame_size_lem, frame_size-first_chunk, make_frames-split,
}

split_too_big :
    (rlp : Rlp) (ws : ℕ) (f : Frame) (rest : Result (List Frame))
    → ws < frame_size rlp (first_chunk rlp ws f)
    → split_frame rlp ws f rest ≡ err assertion_error
unfolding split_frame
split_too_big rlp ws f rest h = ground arith

module _ (rlp : Rlp) (laws : IsRlp rlp) (p c : ℕ) (sid : Option ℕ) (ws : ℕ) (payload : Bytes) where
  fit_parts : arguments_fit rlp p c sid ws ≡ true → (c < 256) × (ws % 16 ≡ 0)
  unfolding arguments_fit
  fit_parts h = ground arith

  abbrev start : Frame
  start = start_frame p c sid false payload

  has_enc : c < 256 → 1 ≤ length (enc_cmd_id rlp start)
  unfolding enc_cmd_id
  has_enc h = laws.length-encode_pos c h

  -- A window below 64 bytes takes no frame with a command id.
  pub new_frames-narrow :
      arguments_fit rlp p c sid ws ≡ true
      → ws < 64
      → new_frames rlp p c payload sid ws ≡ err assertion_error
  unfolding new_frames
  new_frames-narrow fit small =
      let rounds : length payload + 2 ≡ suc (length payload + 1) = omega arith in
      let e = has_enc (fit_parts fit).0 in
      rw rounds (
        make_frames-split rlp p c sid ws (length payload + 1) payload false fit (
          omega (
            arith,
            frame_size_lem rlp ws start,
            ceil16_bounds (length (enc_cmd_id rlp start) + length payload),
          ))
        ∙ split_too_big rlp ws start _ (
            omega (
              arith,
              frame_size-first_chunk rlp ws start,
              ceil16_bounds (length (enc_cmd_id rlp start) + length (chunk_payload rlp ws start)),
            )))
