-- ===== src/Predictor/Tests.antt =====
-- The predictor on a few requests.
use abcmalloc.Base.{◌^◌, ◌≡◌, refl, arith}
use abcmalloc.Predictor.{Classes, new_predictor, push, of_class, align_to_page, predict_size}
use abcmalloc.Predictor.Cover.{Covers, predict_size-Covers}

abbrev classes : Classes
classes = record {
  precise = 256;
  small = 512;
  medium = 4096;
  large = 2 ^ 16;
  class_1mb = 2 ^ 20;
  class_gb = 2 ^ 30;
}

-- Requests of 5000 and 9000 bytes make 7000 of a request of 6000, two pages.
mean_of_two : predict_size 12 classes (push (push new_predictor 5000) 9000) 6000 ≡ 8192
unfolding predict_size push of_class align_to_page
mean_of_two = refl

predict_size-Covers_example :
    Covers 12 6000 (predict_size 12 classes (push (push new_predictor 5000) 9000) 6000)
unfolding push
predict_size-Covers_example =
    predict_size-Covers 12 classes (push (push new_predictor 5000) 9000) 6000 (omega arith)
      (omega arith)
