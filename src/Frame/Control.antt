-- ===== src/Frame/Control.antt =====
-- ax25/frame.go: control bytes, their builders and their readers.
use go_ax.Base.{Bool, arith, ℕ, ◌%◌, ◌<◌, ◌≡◌}
use go_ax.Types.{ctrl_rej_mask, ctrl_rnr_mask, ctrl_rr_mask, frame_i, frame_s}
use go_ax.Frame.{
  build_i_control, build_rej_control, build_rnr_control, build_rr_control, extract_nr, extract_ns,
  has_pf, identify_frame_type,
}

-- An I frame's control byte holds N(S), N(R) and P/F, is one byte, and is taken for an I frame.
pub build_i_control_lem :
    (ns nr : ℕ) (pf : Bool)
    → let c = build_i_control ns nr pf in
      (extract_ns c ≡ ns % 8)
      × (extract_nr c ≡ nr % 8)
      × (has_pf c ≡ pf)
      × (c < 256)
      × (identify_frame_type c ≡ frame_i)
unfolding build_i_control identify_frame_type
build_i_control_lem ns nr pf = ground arith

-- The supervisory control bytes hold N(R) and P/F, are one byte, are taken for S frames, and keep
-- their kind in the low four bits.
pub build_s_control_lem :
    (nr : ℕ) (pf : Bool)
    → let SFrame = λ (c mask : ℕ).
      (extract_nr c ≡ nr % 8)
      × (has_pf c ≡ pf)
      × (c < 256)
      × (identify_frame_type c ≡ frame_s)
      × (c % 16 ≡ mask) in
      SFrame (build_rr_control nr pf) ctrl_rr_mask
      × SFrame (build_rnr_control nr pf) ctrl_rnr_mask
      × SFrame (build_rej_control nr pf) ctrl_rej_mask
unfolding build_rr_control build_rnr_control build_rej_control identify_frame_type
build_s_control_lem nr pf = ground arith
