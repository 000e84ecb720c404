-- ===== src/Mission/Camera.antt =====
-- shared/include/exn/shared/exn_interfaces.h: the codes of the camera and of objects, by the names in the source.
use exn_gs.Common.{[], ◌∷◌, ◌^◌}
use exn_gs.Mission.Codes.{Enum, entry}

abbrev pub value_types : Enum
value_types =
    entry "EXN_VALUE_BOOL" 1
    ∷ entry "EXN_VALUE_U8" 2
    ∷ entry "EXN_VALUE_U16" 3
    ∷ entry "EXN_VALUE_U32" 4
    ∷ entry "EXN_VALUE_U64" 5
    ∷ entry "EXN_VALUE_I16" 6
    ∷ entry "EXN_VALUE_I32" 7
    ∷ entry "EXN_VALUE_F32" 8
    ∷ entry "EXN_VALUE_STRING" 9
    ∷ entry "EXN_VALUE_BYTES" 10
    ∷ []

abbrev pub camera_scopes : Enum
camera_scopes =
    entry "EXN_CAM_SCOPE_SENSOR_OUTPUT" (2 ^ 0)
    ∷ entry "EXN_CAM_SCOPE_EXPOSURE_GAIN" (2 ^ 1)
    ∷ entry "EXN_CAM_SCOPE_COLOR_WB" (2 ^ 2)
    ∷ entry "EXN_CAM_SCOPE_FOCUS" (2 ^ 3)
    ∷ entry "EXN_CAM_SCOPE_ISP_HDR" (2 ^ 4)
    ∷ entry "EXN_CAM_SCOPE_ENCODING" (2 ^ 5)
    ∷ []

abbrev pub camera_config_flags : Enum
camera_config_flags =
    entry "EXN_CAM_CONFIG_VALIDATE_ONLY" (2 ^ 0)
    ∷ entry "EXN_CAM_CONFIG_DEFER_UNTIL_IDLE" (2 ^ 1)
    ∷ entry "EXN_CAM_CONFIG_REQUIRE_EXACT" (2 ^ 2)
    ∷ []

abbrev pub camera_acq_flags : Enum
camera_acq_flags =
    entry "EXN_CAM_ACQ_USE_CURRENT_FOCUS" (2 ^ 0)
    ∷ entry "EXN_CAM_ACQ_FAIL_IF_PRODUCT_UNAVAILABLE" (2 ^ 1)
    ∷ entry "EXN_CAM_ACQ_KEEP_PARTIAL_PRODUCTS" (2 ^ 2)
    ∷ []

abbrev pub camera_config_statuses : Enum
camera_config_statuses =
    entry "EXN_CAM_CONFIG_OK" 0
    ∷ entry "EXN_CAM_CONFIG_UNSUPPORTED" 1
    ∷ entry "EXN_CAM_CONFIG_UNAVAILABLE_IN_CURRENT_MODE" 2
    ∷ entry "EXN_CAM_CONFIG_READ_ONLY" 3
    ∷ entry "EXN_CAM_CONFIG_INVALID" 4
    ∷ []

abbrev pub camera_controls : Enum
camera_controls =
    entry "EXN_CAM_SENSOR_MODE" 0x0001
    ∷ entry "EXN_CAM_OUTPUT_WIDTH" 0x0002
    ∷ entry "EXN_CAM_OUTPUT_HEIGHT" 0x0003
    ∷ entry "EXN_CAM_OUTPUT_PIXEL_FORMAT" 0x0004
    ∷ entry "EXN_CAM_FRAME_RATE" 0x0005
    ∷ entry "EXN_CAM_CROP_X" 0x0006
    ∷ entry "EXN_CAM_CROP_Y" 0x0007
    ∷ entry "EXN_CAM_CROP_W" 0x0008
    ∷ entry "EXN_CAM_CROP_H" 0x0009
    ∷ entry "EXN_CAM_HFLIP" 0x000a
    ∷ entry "EXN_CAM_VFLIP" 0x000b
    ∷ entry "EXN_CAM_AE_ENABLE" 0x0100
    ∷ entry "EXN_CAM_EXPOSURE_US" 0x0101
    ∷ entry "EXN_CAM_ANALOGUE_GAIN" 0x0102
    ∷ entry "EXN_CAM_EXPOSURE_COMPENSATION_EV" 0x0103
    ∷ entry "EXN_CAM_METERING_MODE" 0x0104
    ∷ entry "EXN_CAM_EXPOSURE_MODE" 0x0105
    ∷ entry "EXN_CAM_AWB_ENABLE" 0x0200
    ∷ entry "EXN_CAM_AWB_MODE" 0x0201
    ∷ entry "EXN_CAM_AWB_RED_GAIN" 0x0202
    ∷ entry "EXN_CAM_AWB_BLUE_GAIN" 0x0203
    ∷ entry "EXN_CAM_AF_MODE" 0x0300
    ∷ entry "EXN_CAM_AF_RANGE" 0x0302
    ∷ entry "EXN_CAM_AF_SPEED" 0x0303
    ∷ entry "EXN_CAM_LENS_POSITION_DIOPTRES" 0x0304
    ∷ entry "EXN_CAM_AF_WINDOW_X" 0x0305
    ∷ entry "EXN_CAM_AF_WINDOW_Y" 0x0306
    ∷ entry "EXN_CAM_AF_WINDOW_W" 0x0307
    ∷ entry "EXN_CAM_AF_WINDOW_H" 0x0308
    ∷ entry "EXN_CAM_HDR_ENABLE" 0x0400
    ∷ entry "EXN_CAM_BRIGHTNESS" 0x0401
    ∷ entry "EXN_CAM_CONTRAST" 0x0402
    ∷ entry "EXN_CAM_SATURATION" 0x0403
    ∷ entry "EXN_CAM_SHARPNESS" 0x0404
    ∷ entry "EXN_CAM_DENOISE_MODE" 0x0405
    ∷ entry "EXN_CAM_JPEG_QUALITY" 0x0500
    ∷ entry "EXN_CAM_THUMBNAIL_ENABLE" 0x0501
    ∷ entry "EXN_CAM_THUMBNAIL_MAX_WIDTH" 0x0502
    ∷ []

abbrev pub camera_params : Enum
camera_params =
    entry "EXN_CAM_PARAM_STORAGE_RETENTION_COUNT" 0x1001
    ∷ entry "EXN_CAM_PARAM_STORAGE_MINIMUM_FREE_BYTES" 0x1002
    ∷ entry "EXN_CAM_PARAM_CATALOG_MAX_ENTRIES_PER_REPORT" 0x1003
    ∷ []

abbrev pub object_types : Enum
object_types =
    entry "EXN_OBJECT_CAPTURED_IMAGE" 0x0001
    ∷ entry "EXN_OBJECT_DERIVED_IMAGE" 0x0002
    ∷ entry "EXN_OBJECT_PROCESSING_MASK" 0x0003
    ∷ entry "EXN_OBJECT_RESULT_BLOB" 0x0004
    ∷ entry "EXN_OBJECT_THUMBNAIL" 0x0005
    ∷ entry "EXN_OBJECT_UPDATE_PACKAGE" 0x0010
    ∷ entry "EXN_OBJECT_DIAGNOSTIC_LOG" 0x0020
    ∷ entry "EXN_OBJECT_OPAQUE" 0x7fff
    ∷ []

abbrev pub object_formats : Enum
object_formats =
    entry "EXN_FORMAT_SENSOR_RAW" 0x0001
    ∷ entry "EXN_FORMAT_DNG" 0x0002
    ∷ entry "EXN_FORMAT_TIFF" 0x0003
    ∷ entry "EXN_FORMAT_JPEG" 0x0004
    ∷ entry "EXN_FORMAT_PNG" 0x0005
    ∷ entry "EXN_FORMAT_BINARY" 0x0006
    ∷ entry "EXN_FORMAT_CBOR" 0x0007
    ∷ entry "EXN_FORMAT_JSON" 0x0008
    ∷ []
