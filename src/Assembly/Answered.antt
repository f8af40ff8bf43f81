-- ===== src/Assembly/Answered.antt =====
-- What the owner hears at the end of a pass of internal/core/turns/run.go.
use eggy.Prelude.{ℕ, ◌≡◌, inl, inr, sym, ap, ◌∙◌, not, ◌||◌, List, [], ◌∷◌, arith, Option-cases}
use eggy.Prelude.Result.{Error, Result, ok, err, Result-cases}
use eggy.Text.{is_empty}
use eggy.Message.{ContentPart}
use eggy.Assembly.Steps.{M, ◌>>=◌, try_call}
use eggy.Assembly.Service.{Collaborators, is_images_unsupported}
use eggy.Assembly.Replies.{
  raise, cannot_show, after_image, deliver_each, deliver_images, save_each, keep_images,
}
use eggy.Assembly.Told.{
  Grows, Tells, Grows-bind, Grows-done, Grows-fails, Grows-try_call, Tells-fails, Grows-if,
  Tells-if,
}
use eggy.Assembly.Laws.{Shows, Shows-Tells, Laws}

module _ {W : Type 0} (told : W → ℕ) (c : Collaborators W) (l : Laws told c) where
  pub Grows-raise : (r : Result (Unit {0})) → Grows told (raise c r)
  unfolding raise
  Grows-raise (ok a) = Grows-done told tt
  Grows-raise (err e) = Grows-fails told e

  Grows-save_each : (images : List ContentPart) → Grows told (save_each c images)
  unfolding save_each
  Grows-save_each [] = Grows-done told []
  Grows-save_each (i ∷ images) = Grows-bind told _ _ (Grows-try_call told _ (l.save_image i)) λ r.
      Grows-bind told _ _ (Grows-save_each images)
        λ ids. Grows-done told (elim r [ ok id ↦ id | err _ ↦ [] ] ∷ ids)

  pub Grows-keep_images :
      (trace : List ℕ) (images : List ContentPart) → Grows told (keep_images c trace images)
  unfolding keep_images
  Grows-keep_images trace images =
      Grows-if told (not c.keeps_images || is_empty trace) _ _ (Grows-done told _)
        (Grows-save_each images)

  after_image-Grows :
      (rest : M W (Unit {0})) (r : Result (Unit {0}))
      → Grows told rest
      → Grows told (after_image c rest r)
  unfolding after_image
  after_image-Grows rest (ok a) g = g
  after_image-Grows rest (err e) g =
      Grows-if told (is_images_unsupported e) _ _ (l.deliver (cannot_show c)).kept
        (Grows-fails told e)

  after_image-Tells :
      (Silence : Type 0) (rest : M W (Unit {0})) (e : Error)
      → Tells told Silence (after_image c rest (err e))
  unfolding after_image
  after_image-Tells Silence rest e =
      Tells-if told Silence (is_images_unsupported e) _ _
        (Shows-Tells told Silence _ (l.deliver (cannot_show c))) (Tells-fails told Silence e)

  image-Grows :
      (m rest : M W (Unit {0}))
      → Shows told m
      → Grows told rest
      → Grows told (try_call m >>= after_image c rest)
  image-Grows m rest s g =
      Grows-bind told (try_call m) (after_image c rest) (Grows-try_call told m s.kept)
        (λ r. after_image-Grows rest r g)

  image-Tells :
      (Silence : Type 0) (m rest : M W (Unit {0}))
      → Shows told m
      → Grows told rest
      → Tells told Silence (try_call m >>= after_image c rest)
  unfolding ◌>>=◌ try_call
  image-Tells Silence m rest s g = record {
    kept = image-Grows m rest s g;
    tells = λ w a h. elim (Result-cases ((m w).0)) [
      | inl (b, fine) ↦
          let more = s.shown w fine in
          inr (omega (arith, more, (after_image-Grows rest ((m w).0) g).grows (m w).1))
      | inr (e, bad) ↦
          let same : after_image c rest ((m w).0) ≡ after_image c rest (err e) =
            ap (after_image c rest) bad in
          elim ((after_image-Tells Silence rest e).tells (m w).1 a
            (ap (λ f. (f (m w).1).0) (sym same) ∙ h)) [
              | inl silent ↦ inl silent
              | inr more ↦
                  inr (omega (arith, more, s.kept.grows w, ap (λ f. told (f (m w).1).1) same))
            ]
    ];
  }

  each-Grows :
      (show : List ℕ → ContentPart → M W (Unit {0}))
      → ((id : List ℕ) (i : ContentPart) → Shows told (show id i))
      → (ids : List (List ℕ)) (images : List ContentPart)
      → Grows told (deliver_each c show ids images)
  unfolding deliver_each
  each-Grows show s ids [] = Grows-done told tt
  each-Grows show s [] (i ∷ images) = Grows-fails told _
  each-Grows show s (id ∷ ids) (i ∷ images) =
      image-Grows (show id i) (deliver_each c show ids images) (s id i)
        (each-Grows show s ids images)

  each-Tells :
      (Silence : Type 0) (show : List ℕ → ContentPart → M W (Unit {0}))
      → ((id : List ℕ) (i : ContentPart) → Shows told (show id i))
      → (ids : List (List ℕ)) (i : ContentPart) (images : List ContentPart)
      → Tells told Silence (deliver_each c show ids (i ∷ images))
  unfolding deliver_each
  each-Tells Silence show s [] i images = Tells-fails told Silence _
  each-Tells Silence show s (id ∷ ids) i images =
      image-Tells Silence (show id i) (deliver_each c show ids images) (s id i)
        (each-Grows show s ids images)

  pub images-Grows :
      (ids : List (List ℕ)) (images : List ContentPart) → Grows told (deliver_images c ids images)
  unfolding deliver_images
  images-Grows ids [] = Grows-done told tt
  images-Grows ids (i ∷ images) = elim (Option-cases c.deliver_image) [
    | inl cannot ↦ rw (deliver_images, cannot) (l.deliver (cannot_show c)).kept
    | inr (show, can) ↦
        rw (deliver_images, can) (each-Grows show (l.deliver_image show can) ids (i ∷ images))
  ]

  pub images-Tells :
      (Silence : Type 0) (ids : List (List ℕ)) (i : ContentPart) (images : List ContentPart)
      → Tells told Silence (deliver_images c ids (i ∷ images))
  unfolding deliver_images
  images-Tells Silence ids i images = elim (Option-cases c.deliver_image) [
    | inl cannot ↦
        rw (deliver_images, cannot) (Shows-Tells told Silence _ (l.deliver (cannot_show c)))
    | inr (show, can) ↦
        rw (deliver_images, can) (each-Tells Silence show (l.deliver_image show can) ids i images)
  ]
