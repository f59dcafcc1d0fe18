-- ===== src/Dev/Errors.antt =====
-- src/system/api: the error codes of drivers (driver/include/gunwdrv.h) and devices
-- (app/include/gunwdevtypes.h).
pub data DriverError : Type 0 where
  gdre_none gdre_uninitialized gdre_start_failed gdre_irq_conflict gdre_irq_invalid
        gdre_limit_reached gdre_isr_missing gdre_invalid_descriptor gdre_unknown :
      DriverError

pub data DeviceError : Type 0 where
  gde_none gde_busy gde_id_invalid gde_not_found gde_cannot_be_held gde_already_held gde_already_set
        gde_handle_invalid gde_listener_invalid gde_decoder_invalid gde_invalid_device_state
        gde_invalid_operation gde_invalid_parameter gde_precondition_not_satisfied
        gde_operation_failed gde_unknown :
      DeviceError
