-- ===== src/Traffic/Sightings.antt =====
-- The vehicles that a camera has seen.
use semaforo.Prelude.{
  ℕ, ◌≡◌, refl, String, true, false, Option, none, some, List, [], ◌∷◌, ◌++◌, if◌then◌else◌, ℤ,
  negsuc, arith, Bool-cases, Option-cases, inl, inr, ◌∙◌, sym, ap,
}
use semaforo.Traffic.{Detection, Sighting, same_id, get_seen, see, see_frame, first_seen}

-- All tracked detections in their order.
abbrev pub sightings_in : ℕ → List Detection → List Sighting
sightings_in frame [] = []
sightings_in frame (det ∷ dets) =
    if same_id det.id (negsuc 0)
    then sightings_in frame dets
    else (det.id, frame, det.kind) ∷ sightings_in frame dets

abbrev pub sightings : List (ℕ × List Detection) → List Sighting
sightings [] = []
sightings ((frame, dets) ∷ frames) = sightings_in frame dets ++ sightings frames

-- No vehicle stands twice in the list.
abbrev pub AreDistinct : List Sighting → Type 0
AreDistinct [] = Unit
AreDistinct ((id, _, _) ∷ seen) = (get_seen seen id ≡ none) × AreDistinct seen

abbrev or_later : Option (ℕ × String) → Option (ℕ × String) → Option (ℕ × String)
or_later none b = b
or_later (some a) b = some a

get_seen-append :
    (xs ys : List Sighting) (id : ℤ)
    → get_seen (xs ++ ys) id ≡ or_later (get_seen xs id) (get_seen ys id)
unfolding get_seen
get_seen-append [] ys id = refl
get_seen-append ((j, frame, kind) ∷ xs) ys id = elim (Bool-cases (same_id j id)) [
  | inl e ↦ rw e refl
  | inr e ↦ rw e (get_seen-append xs ys id)
]

or_later_assoc :
    (a b c : Option (ℕ × String)) → or_later (or_later a b) c ≡ or_later a (or_later b c)
or_later_assoc none b c = refl
or_later_assoc (some a) b c = refl

or_later-none : (a : Option (ℕ × String)) → or_later a none ≡ a
or_later-none none = refl
or_later-none (some a) = refl

same_id-eq : (a b : ℤ) → same_id a b ≡ true → a ≡ b
same_id-eq a b h = ground arith

same_id_sym : (a b : ℤ) → same_id a b ≡ same_id b a
same_id_sym a b = ground arith

append_one-AreDistinct :
    (seen : List Sighting) (id : ℤ) (frame : ℕ) (kind : String)
    → AreDistinct seen
    → get_seen seen id ≡ none
    → AreDistinct (seen ++ (id, frame, kind) ∷ [])
unfolding get_seen
append_one-AreDistinct [] id frame kind h k = (refl, tt)
append_one-AreDistinct ((j, f, g) ∷ seen) id frame kind h k = elim (Bool-cases (same_id j id)) [
  | inl e ↦ let absurd : ◌≡◌ {A = Option (ℕ × String)} (some (f, g)) none = rw e at k in cc
  | inr e ↦
      let other : same_id id j ≡ false = same_id_sym id j ∙ e in
      let rest : get_seen seen id ≡ none = rw e at k in
      (
        get_seen-append seen ((id, frame, kind) ∷ []) j ∙ rw (h.0, other) refl,
        append_one-AreDistinct seen id frame kind h.1 rest,
      )
]

-- A vehicle that is known is not added again.
known_lem :
    (seen : List Sighting) (j id : ℤ) (frame : ℕ) (kind : String) {info : ℕ × String}
    → get_seen seen j ≡ some info
    → get_seen seen id ≡ or_later (get_seen seen id) (get_seen ((j, frame, kind) ∷ []) id)
known_lem seen j id frame kind {info} k = elim (Bool-cases (same_id j id)) [
  | inl e ↦
      let same = same_id-eq j id e in
      let k' : get_seen seen id ≡ some info = ap (get_seen seen) (sym same) ∙ k in rw k' refl
  | inr e ↦
      let other : get_seen ((j, frame, kind) ∷ []) id ≡ none = unfold get_seen in (rw e refl) in
      rw other (sym (or_later-none (get_seen seen id)))
]

see_lem :
    (frame : ℕ) (det : Detection) (seen : List Sighting) (id : ℤ)
    → get_seen (see frame det seen) id
      ≡ or_later (get_seen seen id) (get_seen (sightings_in frame (det ∷ [])) id)
unfolding see
see_lem frame det seen id = elim (Bool-cases (same_id det.id (negsuc 0))) [
  | inl e ↦ rw e (unfold get_seen in (sym (or_later-none (get_seen seen id))))
  | inr e ↦ elim (Option-cases (get_seen seen det.id)) [
    | inl k ↦ rw (e, k, see) (get_seen-append seen ((det.id, frame, det.kind) ∷ []) id)
    | inr (info, k) ↦ rw (e, k, see) (known_lem seen det.id id frame det.kind k)
  ]
]

see-AreDistinct :
    (frame : ℕ) (det : Detection) (seen : List Sighting)
    → AreDistinct seen
    → AreDistinct (see frame det seen)
unfolding see
see-AreDistinct frame det seen h = elim (Bool-cases (same_id det.id (negsuc 0))) [
  | inl e ↦ rw e h
  | inr e ↦ elim (Option-cases (get_seen seen det.id)) [
    | inl k ↦ rw (e, k, see) (append_one-AreDistinct seen det.id frame det.kind h k)
    | inr (info, k) ↦ rw (e, k, see) h
  ]
]

split_first :
    (frame : ℕ) (det : Detection) (dets : List Detection)
    → sightings_in frame (det ∷ []) ++ sightings_in frame dets ≡ sightings_in frame (det ∷ dets)
split_first frame det dets = elim (Bool-cases (same_id det.id (negsuc 0))) [
  | inl e ↦ rw e refl
  | inr e ↦ rw e refl
]

see_frame_lem :
    (frame : ℕ) (dets : List Detection) (seen : List Sighting) (id : ℤ)
    → get_seen (see_frame frame dets seen) id
      ≡ or_later (get_seen seen id) (get_seen (sightings_in frame dets) id)
unfolding see_frame get_seen
see_frame_lem frame [] seen id = sym (or_later-none (get_seen seen id))
see_frame_lem frame (det ∷ dets) seen id =
    see_frame_lem frame dets (see frame det seen) id
    ∙ ap (λ o. or_later o (get_seen (sightings_in frame dets) id)) (see_lem frame det seen id)
    ∙ or_later_assoc (get_seen seen id) (get_seen (sightings_in frame (det ∷ [])) id)
        (get_seen (sightings_in frame dets) id)
    ∙ ap (or_later (get_seen seen id)) (
        sym (get_seen-append (sightings_in frame (det ∷ [])) (sightings_in frame dets) id)
        ∙ ap (λ l. get_seen l id) (split_first frame det dets))

see_frame-AreDistinct :
    (frame : ℕ) (dets : List Detection) (seen : List Sighting)
    → AreDistinct seen
    → AreDistinct (see_frame frame dets seen)
unfolding see_frame
see_frame-AreDistinct frame [] seen h = h
see_frame-AreDistinct frame (det ∷ dets) seen h =
    see_frame-AreDistinct frame dets (see frame det seen) (see-AreDistinct frame det seen h)

first_seen_from :
    (frames : List (ℕ × List Detection)) (seen : List Sighting)
    → AreDistinct seen
    → AreDistinct (first_seen frames seen)
      × ((id : ℤ)
          → get_seen (first_seen frames seen) id
            ≡ or_later (get_seen seen id) (get_seen (sightings frames) id))
unfolding first_seen get_seen
first_seen_from [] seen h = (h, λ id. sym (or_later-none (get_seen seen id)))
first_seen_from ((frame, dets) ∷ frames) seen h =
    let rest =
      first_seen_from frames (see_frame frame dets seen)
        (see_frame-AreDistinct frame dets seen h) in
    (
      rest.0,
      λ id.
          rest.1 id
          ∙ ap (λ o. or_later o (get_seen (sightings frames) id)) (see_frame_lem frame dets seen id)
          ∙ or_later_assoc (get_seen seen id) (get_seen (sightings_in frame dets) id)
              (get_seen (sightings frames) id)
          ∙ ap (or_later (get_seen seen id))
              (sym (get_seen-append (sightings_in frame dets) (sightings frames) id)),
    )

-- The list of a camera has each tracked vehicle once, with the frame and the class of its first
-- detection; a detection without a track adds nothing.
pub first_seen_lem :
    (frames : List (ℕ × List Detection))
    → AreDistinct (first_seen frames [])
      × ((id : ℤ) → get_seen (first_seen frames []) id ≡ get_seen (sightings frames) id)
first_seen_lem frames = unfold get_seen in (first_seen_from frames [] tt)
